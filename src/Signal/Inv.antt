-- ===== src/Signal/Inv.antt =====
-- What holds of the pending sets and the stack of each thread between two operations of kern/signal.c,
-- and the operations that keep it.
use elos.Base.{
  ℕ, suc, ◌+◌, ◌-◌, ◌%◌, ◌^◌, ◌≤◌, ◌<◌, ◌≡◌, refl, true, false, ◌==◌, arith, Bool-cases, inl, inr,
}
use elos.Sigset.{Sigset, empty, nsig, sigblock, sigunblock}
use elos.Sigset.Laws.{IsSmall}
use elos.Sigset.Size.{
  size, bit, size-empty, size-sigblock, size-sigunblock, sigblock-IsSmall, sigunblock-IsSmall,
}
use elos.Signal.{Sigthr, Signals, flag, counted, put_thr}

-- A pending set whose signals have actions, and its counter: it may count too many.
pub record Counts (k : ℕ) (set : Sigset) (npending : ℕ) : Type 0 where
  pub small : IsSmall set
  pub enough : size set ≤ npending
  pub bounded : npending ≤ k

pub Counts-empty : (k : ℕ) → Counts k empty 0
Counts-empty k = record {
  small = record { above = λ sig h. refl; not_zero = refl };
  enough = omega (arith, size-empty);
  bounded = omega arith;
}

pub Counts-later : (k : ℕ) (set : Sigset) (n : ℕ) → Counts k set n → Counts (suc k) set n
Counts-later k set n c = record {
  small = c.small;
  enough = c.enough;
  bounded = omega (arith, c.bounded);
}

pub Counts-sigblock :
    (k : ℕ) (set : Sigset) (n sig : ℕ)
    → suc k < 2 ^ 32
    → 0 < sig
    → sig < nsig
    → Counts k set n
    → Counts (suc k) (sigblock set sig) (counted n set sig)
Counts-sigblock k set n sig few pos l c = record {
  small = sigblock-IsSmall set sig l pos c.small;
  enough = ground (arith, size-sigblock set sig l, c.enough, c.bounded);
  bounded = ground (arith, c.bounded);
}

pub Counts-sigunblock :
    (k : ℕ) (set : Sigset) (n sig : ℕ)
    → sig < nsig
    → Counts k set n
    → Counts k (sigunblock set sig) n
Counts-sigunblock k set n sig l c = record {
  small = sigunblock-IsSmall set sig c.small;
  enough = omega (arith, size-sigunblock set sig l, c.enough);
  bounded = c.bounded;
}

-- `signext` from the set of the process and from that of the thread
pub Counts-take_proc :
    (k : ℕ) (set : Sigset) (n sig : ℕ)
    → suc k < 2 ^ 32
    → sig < nsig
    → set sig ≡ true
    → Counts k set n
    → Counts k (sigunblock set sig) ((n + 2 ^ 32 - 1) % 2 ^ 32)
Counts-take_proc k set n sig few l at c =
    let one : bit set sig ≡ 1 = rw at refl in
    let sizes = size-sigunblock set sig l in
    let enough = c.enough in
    let bounded = c.bounded in
    let down : (n + 2 ^ 32 - 1) % 2 ^ 32 ≡ n - 1 = omega arith in
    record {
      small = sigunblock-IsSmall set sig c.small;
      enough = omega arith;
      bounded = omega arith;
    }

pub Counts-take_thr :
    (k : ℕ) (set : Sigset) (n sig : ℕ)
    → suc k < 2 ^ 32
    → sig < nsig
    → Counts k set n
    → Counts (suc k) (sigunblock set sig) ((n + 1) % 2 ^ 32)
Counts-take_thr k set n sig few l c =
    let enough = c.enough in
    let bounded = c.bounded in
    let up : (n + 1) % 2 ^ 32 ≡ n + 1 = omega arith in
    record {
      small = sigunblock-IsSmall set sig c.small;
      enough = omega (arith, size-sigunblock set sig l);
      bounded = omega arith;
    }

-- The handlers that run, and the one that took the alternate stack.
pub record Nested (k : ℕ) (t : Sigthr) : Type 0 where
  pub inner : t.stack_lvl ≤ t.nesting_lvl
  pub few : t.nesting_lvl ≤ k
  pub off_stack : flag t.ss_flags 0 ≡ false → t.stack_lvl ≡ 0

pub record Kept (k : ℕ) (t : Sigthr) : Type 0 where
  pub counts : Counts k t.pending t.npending
  pub nested : Nested k t

pub record Inv (k : ℕ) (s : Signals) : Type 0 where
  pub proc : Counts k s.proc.pending s.proc.npending
  pub thr : (t : ℕ) → Kept k (s.thr t)

pub Nested-later : (k : ℕ) (t : Sigthr) → Nested k t → Nested (suc k) t
Nested-later k t n = record { inner = n.inner; few = omega (arith, n.few); off_stack = n.off_stack }

pub Kept-later : (k : ℕ) (t : Sigthr) → Kept k t → Kept (suc k) t
Kept-later k t h = record {
  counts = Counts-later k t.pending t.npending h.counts;
  nested = Nested-later k t h.nested;
}

pub Inv-later : (k : ℕ) (s : Signals) → Inv k s → Inv (suc k) s
Inv-later k s i = record {
  proc = Counts-later k s.proc.pending s.proc.npending i.proc;
  thr = λ t. Kept-later k (s.thr t) (i.thr t);
}

-- a thread is replaced
pub put_thr-Inv :
    (k : ℕ) (s : Signals) (t : ℕ) (x : Sigthr) → Inv k s → Kept k x → Inv k (put_thr s t x)
put_thr-Inv k s t x i h = record {
  proc = i.proc;
  thr = λ j. elim (Bool-cases (t == j)) [ inl e ↦ rw e h | inr e ↦ rw e (i.thr j) ];
}
