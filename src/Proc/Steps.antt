-- ===== src/Proc/Steps.antt =====
-- kern/proc.c: processes that fork, stop, continue, exit and wait in any order.
use elos.Base.{
  ℕ, ◌≡◌, ◌≢◌, refl, true, false, ◌&&◌, not, [], if◌then◌else◌, ◌==◌, arith, inl, inr, Bool-cases,
  sym, ap, ◌∙◌, subst, remove, count, count-remove_self, count-remove_other, ==_refl,
}
use elos.Proc.{Procs, set, init}
use elos.Proc.Tree.{Kids, is_child}

pub record Inv (s : Procs) : Type 0 where
  pub kids : Kids s
  pub rooted : (c : ℕ) → s.live c ≡ true → (c == init) ≡ false → s.live (s.parent c) ≡ true
  pub childless : (p : ℕ) → s.exiting p ≡ true → s.children p ≡ []
  pub ends : (c : ℕ) → s.zombie c ≡ true → s.exiting c ≡ true
  pub init_live : s.live init ≡ true
  pub init_stays : s.exiting init ≡ false

-- what an operation leaves alone, if it moves nothing in the tree
pub record SameTree (s s' : Procs) : Type 0 where
  pub live : s'.live ≡ s.live
  pub parent : s'.parent ≡ s.parent
  pub children : s'.children ≡ s.children
  pub zombie : s'.zombie ≡ s.zombie
  pub exiting : s'.exiting ≡ s.exiting

pub SameTree-Inv : (s s' : Procs) → SameTree s s' → Inv s → Inv s'
SameTree-Inv s s' t i = record {
  kids = λ c p. rw (t.children, t.live, t.parent) (i.kids c p);
  rooted = rw (t.live, t.parent) (i.rooted);
  childless = rw (t.exiting, t.children) (i.childless);
  ends = rw (t.zombie, t.exiting) (i.ends);
  init_live = rw (t.live) (i.init_live);
  init_stays = rw (t.exiting) (i.init_stays);
}

-- a child that has exited is freed
pub reap-Inv :
    (s : Procs) (c : ℕ)
    → Inv s
    → s.live c ≡ true
    → (c == init) ≡ false
    → s.exiting c ≡ true
    → Inv record s {
      children = set s.children (s.parent c) (remove c (s.children (s.parent c)));
      live = set s.live c false;
    }
reap-Inv s c i live not_init over =
    let old = s.parent c in
    let self = ==_refl old in
    let here : count c (s.children old) ≡ 1 = i.kids c old ∙ rw (live, not_init, self) refl in
    let empty = i.childless c over in
    record {
      kids = λ x q. elim (Bool-cases (c == x)) [
        | inl same ↦
            let e : c ≡ x = ground arith in
            subst
              (λ y.
                count y (set s.children old (remove c (s.children old)) q)
                ≡ (if set s.live c false y && not (y == init) && (s.parent y == q) then 1 else 0))
              e
              (elim (Bool-cases (old == q)) [
                | inl left ↦
                    let gone = count-remove_self c (s.children old) in
                    let self_c = ==_refl c in rw (left, self_c) (omega (arith, gone, here))
                | inr other ↦
                    let self_c = ==_refl c in
                    rw (other, self_c) (i.kids c q ∙ rw (live, not_init, other) refl)
              ])
        | inr differ ↦
            let ne : c ≢ x = ground arith in
            elim (Bool-cases (old == q)) [
              | inl left ↦
                  let e : old ≡ q = ground arith in
                  let gone = count-remove_other c x (s.children old) ne in
                  rw (left, differ)
                    (gone ∙ i.kids x old ∙ ap (λ r. if is_child s x r then 1 else 0) e)
              | inr other ↦ rw (other, differ) (i.kids x q)
            ]
      ];
      rooted = λ x alive other. elim (Bool-cases (c == x)) [
        | inl same ↦
            let dead : (if c == x then false else s.live x) ≡ false = rw same refl in absurd (cc)
        | inr differ ↦
            let alive' : s.live x ≡ true = sym (rw differ refl) ∙ alive in
            elim (Bool-cases (c == s.parent x)) [
              | inr other_parent ↦ rw other_parent (i.rooted x alive' other)
              | inl mine ↦
                  let e : s.parent x ≡ c = ground arith in
                  let self_c = ==_refl c in
                  let one : count x (s.children c) ≡ 1 =
                    i.kids x c ∙ rw (alive', other, e, self_c) refl in
                  let none_there : count x (s.children c) ≡ 0 = rw empty refl in
                  absurd (omega (arith, one, none_there))
            ]
      ];
      childless = λ p gone. elim (Bool-cases (old == p)) [
        | inr other ↦ rw other (i.childless p gone)
        | inl left ↦
            let e : old ≡ p = ground arith in
            let none_there : count c (s.children old) ≡ 0 =
              rw (ap s.children e ∙ i.childless p gone) refl in
            absurd (omega (arith, here, none_there))
      ];
      ends = i.ends;
      init_live = let n : (c == init) ≡ false = not_init in rw n (i.init_live);
      init_stays = i.init_stays;
    }
