-- ===== src/Proc/Tree.antt =====
-- The tree of processes of kern/proc.c: the parents and the lists of children agree, and moving a process, or all
-- children of one, to another parent keeps that.
use elos.Base.{
  ℕ, ◌≡◌, ◌≢◌, ◌⊎◌, refl, Bool, true, false, ◌&&◌, not, List, [], ◌∷◌, ◌++◌, if◌then◌else◌, ◌==◌,
  arith, inl, inr, Bool-cases, sym, ap, ◌∙◌, subst, count, count-remove_self, count-remove_other,
  count-append_self, count-append_other, ==_refl,
}
use mathlib.Core.List.{append_assoc, append-nil}
use elos.Proc.{Procs, init, proc_reparent, reparent_all}

-- whether `c` is a child of `p`
abbrev pub is_child : Procs → (c p : ℕ) → Bool
is_child s c p = s.live c && not (c == init) && (s.parent c == p)

-- each process but init is once in the list of its parent, and in no other; no list has any other
abbrev pub Kids : Procs → Type 0
Kids s = (c p : ℕ) → count c (s.children p) ≡ (if is_child s c p then 1 else 0)

child-true :
    (s : Procs) (c p : ℕ)
    → is_child s c p ≡ true
    → (s.live c ≡ true) × ((c == init) ≡ false) × (s.parent c ≡ p)
child-true s c p e = (ground arith, ground arith, ground arith)

-- the head of a list of children is a child
pub head-child :
    (s : Procs) (p c : ℕ) (cs : List ℕ)
    → Kids s
    → s.children p ≡ c ∷ cs
    → (s.live c ≡ true) × ((c == init) ≡ false) × (s.parent c ≡ p)
head-child s p c cs kids e = elim (Bool-cases (is_child s c p)) [
  | inl yes_child ↦ child-true s c p yes_child
  | inr other ↦
      let n : count c (s.children p) ≡ 0 = kids c p ∙ rw other refl in
      let m : count c (c ∷ cs) ≡ 0 = ap (count c) (sym e) ∙ n in
      let self = ==_refl c in absurd (ground arith)
]

-- `proc_reparent` of a child to a process that is not its parent
pub proc_reparent-Kids :
    (s : Procs) (c to : ℕ)
    → Kids s
    → s.live c ≡ true
    → (c == init) ≡ false
    → (s.parent c == to) ≡ false
    → Kids (proc_reparent c to s)
unfolding proc_reparent
proc_reparent-Kids s c to kids live not_init moves x q =
    let old = s.parent c in
    let self_c = ==_refl c in
    let self_old = ==_refl old in
    let self_to = ==_refl to in
    let here : count c (s.children old) ≡ 1 = kids c old ∙ rw (live, not_init, self_old) refl in
    let away : count c (s.children to) ≡ 0 = kids c to ∙ rw (live, not_init, moves) refl in
    elim (Bool-cases (c == x)) [
      | inl same ↦
          let e : c ≡ x = ground arith in
          subst
            (λ y.
              count y ((proc_reparent c to s).children q)
              ≡ (if is_child (proc_reparent c to s) y q then 1 else 0))
            e
            (elim (Bool-cases (to == q)) [
              | inl at ↦
                  let sum = count-append_self c (s.children to) in
                  rw (at, moves, self_c, live, not_init, at) (omega (arith, sum, away))
              | inr off ↦ elim (Bool-cases (old == q)) [
                | inl left ↦
                    let gone = count-remove_self c (s.children old) in
                    rw (off, left, self_c, live, not_init, off) (omega (arith, gone, here))
                | inr other ↦
                    let none_there : count c (s.children q) ≡ 0 =
                      kids c q ∙ rw (live, not_init, other) refl in
                    rw (off, other, self_c, live, not_init, off) none_there
              ]
            ])
      | inr differ ↦
          let ne : c ≢ x = ground arith in
          let ne' : x ≢ c = ground arith in
          elim (Bool-cases (to == q)) [
            | inl at ↦
                let e : to ≡ q = ground arith in
                let sum = count-append_other x c (s.children to) ne' in
                let now : count x (s.children to) ≡ (if is_child s x q then 1 else 0) =
                  kids x to ∙ ap (λ r. if is_child s x r then 1 else 0) e in
                rw (at, moves, differ) (sum ∙ now)
            | inr off ↦ elim (Bool-cases (old == q)) [
              | inl left ↦
                  let e : old ≡ q = ground arith in
                  let gone = count-remove_other c x (s.children old) ne in
                  let now : count x (s.children old) ≡ (if is_child s x q then 1 else 0) =
                    kids x old ∙ ap (λ r. if is_child s x r then 1 else 0) e in
                  rw (off, left, differ) (gone ∙ now)
              | inr other ↦ rw (off, other, differ) (kids x q)
            ]
          ]
    ]

-- All children `cs` of `old` have come to init.
pub record Moved (s s' : Procs) (old : ℕ) (cs : List ℕ) : Type 0 where
  pub kids : Kids s'
  pub left : s'.children old ≡ []
  pub joined : s'.children init ≡ s.children init ++ cs
  pub others : (q : ℕ) → (old == q) ≡ false → (init == q) ≡ false → s'.children q ≡ s.children q
  pub parents : (x : ℕ) → (s'.parent x ≡ init) ⊎ (s'.parent x ≡ s.parent x)
  pub live : s'.live ≡ s.live
  pub zombie : s'.zombie ≡ s.zombie
  pub exiting : s'.exiting ≡ s.exiting
  pub woken : s'.woken ≡ s.woken

-- one child
one_moved :
    (s : Procs) (old c : ℕ) (cs : List ℕ)
    → (old == init) ≡ false
    → Kids s
    → s.children old ≡ c ∷ cs
    → let s1 = proc_reparent c init s in
      Kids s1
      × (s1.children old ≡ cs)
      × (s1.children init ≡ s.children init ++ (c ∷ []))
      × ((q : ℕ) → (old == q) ≡ false → (init == q) ≡ false → s1.children q ≡ s.children q)
      × ((x : ℕ) → (s1.parent x ≡ init) ⊎ (s1.parent x ≡ s.parent x))
unfolding proc_reparent
one_moved s old c cs apart kids e =
    let (live, not_init, at) = head-child s old c cs kids e in
    let moves : (s.parent c == init) ≡ false = rw at apart in
    let other : (init == old) ≡ false = ground arith in
    let self = ==_refl old in
    let self_c = ==_refl c in
    (
      proc_reparent-Kids s c init kids live not_init moves,
      rw (other, at, self, e, self_c) refl,
      rw moves refl,
      λ q off off_init. rw (off_init, at, off) refl,
      λ x. elim (Bool-cases (c == x)) [
        | inl hit ↦ inl (rw hit refl)
        | inr miss ↦ inr (rw miss refl)
      ],
    )

pub reparent_all-Moved :
    (cs : List ℕ) (s : Procs) (old : ℕ)
    → (old == init) ≡ false
    → Kids s
    → s.children old ≡ cs
    → Moved s (reparent_all cs s) old cs
unfolding reparent_all
reparent_all-Moved [] s old apart kids e = record {
  kids = kids;
  left = e;
  joined = sym (append-nil (s.children init));
  others = λ q a b. refl;
  parents = λ x. inr refl;
  live = refl;
  zombie = refl;
  exiting = refl;
  woken = refl;
}
reparent_all-Moved (c ∷ cs) s old apart kids e =
    let s1 = proc_reparent c init s in
    let (kids₁, left₁, joined₁, others₁, parents₁) = one_moved s old c cs apart kids e in
    let m = reparent_all-Moved cs s1 old apart kids₁ left₁ in
    record {
      kids = m.kids;
      left = m.left;
      joined = m.joined ∙ ap (λ l. l ++ cs) joined₁ ∙ append_assoc (s.children init) (c ∷ []) cs;
      others = λ q a b. m.others q a b ∙ others₁ q a b;
      parents = λ x. elim (m.parents x) [
        | inl at ↦ inl at
        | inr same ↦ elim (parents₁ x) [ inl at ↦ inl (same ∙ at) | inr same₁ ↦ inr (same ∙ same₁) ]
      ];
      live = m.live ∙ reparent-live c s;
      zombie = m.zombie ∙ reparent-zombie c s;
      exiting = m.exiting ∙ reparent-exiting c s;
      woken = m.woken ∙ reparent-woken c s;
    }
  where
    reparent-live : (c : ℕ) (s : Procs) → (proc_reparent c init s).live ≡ s.live
    reparent-live c s = unfold proc_reparent in refl

    reparent-zombie : (c : ℕ) (s : Procs) → (proc_reparent c init s).zombie ≡ s.zombie
    reparent-zombie c s = unfold proc_reparent in refl

    reparent-exiting : (c : ℕ) (s : Procs) → (proc_reparent c init s).exiting ≡ s.exiting
    reparent-exiting c s = unfold proc_reparent in refl

    reparent-woken : (c : ℕ) (s : Procs) → (proc_reparent c init s).woken ≡ s.woken
    reparent-woken c s = unfold proc_reparent in refl
