-- ===== src/Proc/Scan.antt =====
-- The scan of `sys_wait4` in kern/proc.c.
use elos.Base.{
  ℕ, suc, ◌<◌, ◌≡◌, refl, true, ◌||◌, not, List, [], ◌∷◌, ◌==◌, arith, inl, inr, Bool-cases, sym,
  ap, ◌∙◌, count, ==_refl,
}
use elos.Proc.{
  Procs, Options, Target, matches, proc_can_reap, take_status, Scanned, reaps, reports, passes,
  scan_children,
}

-- only PROC_STATUS flags differ
abbrev pub Alike : Procs → Procs → Type 0
Alike s s' = s' ≡ record s { changed = s'.changed }

-- What the scan of `cs` finds: a zombie of the list, or nothing that changes the tree.
abbrev pub Looks : Procs → List ℕ → Scanned → Type 0
Looks s cs (reaps c s') = Alike s s' × (s.zombie c ≡ true) × (0 < count c cs)
Looks s cs (reports c status s') = Alike s s'
Looks s cs (passes n s') = Alike s s'

Looks-later :
    (s s1 : Procs) (c : ℕ) (cs : List ℕ) (r : Scanned)
    → Alike s s1
    → Looks s1 cs r
    → Looks s (c ∷ cs) r
Looks-later s s1 c cs (reaps d s') a (b, z, n) = (
  b ∙ ap (λ (t : Procs). record t { changed = s'.changed }) a,
  ap (λ (t : Procs). t.zombie d) (sym a) ∙ z,
  omega arith,
)
Looks-later s s1 c cs (reports d status s') a b =
    b ∙ ap (λ (t : Procs). record t { changed = s'.changed }) a
Looks-later s s1 c cs (passes n s') a b =
    b ∙ ap (λ (t : Procs). record t { changed = s'.changed }) a

take_status-Alike : (o : Options) (c : ℕ) (s : Procs) → Alike s (take_status o c s).1
unfolding take_status
take_status-Alike o c s = elim (Bool-cases (not (o.untraced || o.continued))) [
  | inl off ↦ rw off refl
  | inr on ↦ elim (Bool-cases (not (s.changed c))) [
    | inl same ↦ rw (on, same) refl
    | inr news ↦ elim (Bool-cases (s.stopped c)) [
      | inl stop ↦ rw (on, news, stop) refl
      | inr cont ↦ rw (on, news, cont) refl
    ]
  ]
]

pub scan_children-Looks :
    (o : Options) (target : Target) (p : ℕ) (cs : List ℕ) (n : ℕ) (s : Procs)
    → Looks s cs (scan_children o target p cs n s)
unfolding scan_children proc_can_reap
scan_children-Looks o target p [] n s = refl
scan_children-Looks o target p (c ∷ cs) n s = elim (Bool-cases (matches target p c s)) [
  | inr other ↦ rw other (
      Looks-later s s c cs (scan_children o target p cs n s) refl
        (scan_children-Looks o target p cs n s))
  | inl hit ↦ elim (Bool-cases (s.zombie c)) [
    | inl dead ↦ let self = ==_refl c in rw (hit, dead) (refl, dead, rw self (omega arith))
    | inr alive ↦
        let (status, s1) = take_status o c s in
        let a = take_status-Alike o c s in
        elim (Bool-cases (status == 0)) [
          | inl nothing_new ↦
              rw (hit, alive, nothing_new)
                (Looks-later s s1 c cs (scan_children o target p cs (suc n) s1) a
                  (scan_children-Looks o target p cs (suc n) s1))
          | inr news ↦ rw (hit, alive, news) a
        ]
  ]
]
