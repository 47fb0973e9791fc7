-- ===== src/Proc/Fork.antt =====
-- The new process of `sys_fork` in kern/proc.c joins the tree.
use elos.Base.{
  ℕ, ◌≡◌, ◌≢◌, refl, true, false, if◌then◌else◌, ◌==◌, arith, inl, inr, Bool-cases, sym, ap, ◌∙◌,
  subst, count, count-append_self, count-append_other, ==_refl,
}
use elos.Proc.{Procs, set, init, fork_child}
use elos.Proc.Tree.{is_child}
use elos.Proc.Steps.{Inv}

pub fork_child-Inv :
    (s : Procs) (p c : ℕ)
    → Inv s
    → s.live p ≡ true
    → s.exiting p ≡ false
    → s.live c ≡ false
    → Inv (fork_child p c s)
unfolding fork_child
fork_child-Inv s p c i live runs fresh =
    let c_init : (c == init) ≡ false = elim (Bool-cases (c == init)) [
      | inr e ↦ e
      | inl e ↦
          let same : init ≡ c = ground arith in
          let there : s.live c ≡ true = ap s.live (sym same) ∙ i.init_live in absurd (cc)
    ] in
    let apart : (c == p) ≡ false = elim (Bool-cases (c == p)) [
      | inr e ↦ e
      | inl e ↦
          let same : p ≡ c = ground arith in
          let there : s.live c ≡ true = ap s.live (sym same) ∙ live in absurd (cc)
    ] in
    let apart' : (p == c) ≡ false = ground arith in
    let self_p = ==_refl p in
    let self_c = ==_refl c in
    let nowhere : (q : ℕ) → count c (s.children q) ≡ 0 = λ q. i.kids c q ∙ rw fresh refl in
    let orphan : (x : ℕ) → s.live x ≡ true → (x == init) ≡ false → (c == s.parent x) ≡ false =
      λ x alive other. elim (Bool-cases (c == s.parent x)) [
        | inr e ↦ e
        | inl e ↦
            let same : s.parent x ≡ c = ground arith in
            let there : s.live c ≡ true = ap s.live (sym same) ∙ i.rooted x alive other in
            absurd (cc)
      ] in
    record {
      kids = λ x q. elim (Bool-cases (c == x)) [
        | inl same ↦
            let e : c ≡ x = ground arith in
            subst
              (λ y.
                count y ((fork_child p c s).children q)
                ≡ (if is_child (fork_child p c s) y q then 1 else 0))
              e
              (elim (Bool-cases (p == q)) [
                | inl at ↦
                    let sum = count-append_self c (s.children p) in
                    rw (at, self_c, c_init, at) (omega (arith, sum, nowhere p))
                | inr off ↦ elim (Bool-cases (c == q)) [
                  | inl own ↦ rw (off, own, self_c, c_init, off) refl
                  | inr other ↦ rw (off, other, self_c, c_init, off) (nowhere q)
                ]
              ])
        | inr differ ↦
            let ne : x ≢ c = ground arith in
            elim (Bool-cases (p == q)) [
              | inl at ↦
                  let e : p ≡ q = ground arith in
                  let sum = count-append_other x c (s.children p) ne in
                  rw (at, differ) (sum ∙ i.kids x p ∙ ap (λ r. if is_child s x r then 1 else 0) e)
              | inr off ↦ elim (Bool-cases (c == q)) [
                | inr other ↦ rw (off, other, differ) (i.kids x q)
                | inl own ↦
                    let no_child : 0 ≡ (if is_child s x q then 1 else 0) =
                      elim (Bool-cases (s.live x)) [
                        | inr dead ↦ rw dead refl
                        | inl alive ↦ elim (Bool-cases (x == init)) [
                          | inl root ↦ rw (alive, root) refl
                          | inr below ↦
                              let away = orphan x alive below in
                              let away' : (s.parent x == q) ≡ false = ground arith in
                              rw (alive, below, away') refl
                        ]
                      ] in
                    rw (off, own, differ) no_child
              ]
            ]
      ];
      rooted = λ x alive other. elim (Bool-cases (c == x)) [
        | inl same ↦ rw (same, apart) live
        | inr differ ↦
            let keep : set s.live c true x ≡ s.live x = rw differ refl in
            let alive' : s.live x ≡ true = sym keep ∙ alive in
            rw (differ, orphan x alive' other) (i.rooted x alive' other)
      ];
      childless = λ q over. elim (Bool-cases (p == q)) [
        | inl at ↦
            let same : p ≡ q = ground arith in
            let runs_q : s.exiting q ≡ false = ap s.exiting (sym same) ∙ runs in
            absurd (ground arith)
        | inr off ↦ elim (Bool-cases (c == q)) [
          | inl own ↦ rw (off, own) refl
          | inr other ↦
              let keep : set s.exiting c false q ≡ s.exiting q = rw other refl in
              rw (off, other) (i.childless q (sym keep ∙ over))
        ]
      ];
      ends = λ x dead. elim (Bool-cases (c == x)) [
        | inl same ↦
            let off : (if c == x then false else s.zombie x) ≡ false = rw same refl in absurd (cc)
        | inr differ ↦
            let keep : (if c == x then false else s.zombie x) ≡ s.zombie x = rw differ refl in
            let was : s.zombie x ≡ true = sym keep ∙ dead in rw differ (i.ends x was)
      ];
      init_live = rw c_init (i.init_live);
      init_stays = rw c_init (i.init_stays);
    }
