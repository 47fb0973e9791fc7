-- ===== src/Proc/Reach.antt =====
-- kern/proc.c: the states of the tree of processes that forks, exits and waits reach.
use elos.Base.{
  ℕ, ◌<◌, ◌≡◌, refl, Bool, true, false, Option, none, some, ◌∷◌, ◌==◌, arith, inl, inr, Bool-cases,
  sym, ap, ◌∙◌, subst, remove, count, ==_refl,
}
use elos.Proc.{
  Procs, set, init, proc_do_sigchld, reparent_all, proc_exit, proc_reap, proc_exit_final,
}
use elos.Proc.Tree.{is_child, Moved, reparent_all-Moved}
use elos.Proc.Steps.{Inv, reap-Inv}

-- a process in a list of children
listed-child :
    (s : Procs) (p c : ℕ)
    → Inv s
    → 0 < count c (s.children p)
    → (s.live c ≡ true) × ((c == init) ≡ false) × ((s.parent c == p) ≡ true)
listed-child s p c i n = elim (Bool-cases (is_child s c p)) [
  | inl e ↦ (ground arith, ground arith, ground arith)
  | inr e ↦
      let none_there : count c (s.children p) ≡ 0 = i.kids c p ∙ rw e refl in
      absurd (omega (arith, none_there))
]

-- `proc_reap` of a child that has exited passes its assertion
pub proc_reap-Inv :
    (s : Procs) (p c : ℕ)
    → Inv s
    → s.exiting c ≡ true
    → 0 < count c (s.children p)
    → (s' : Procs) × (proc_reap p c s ≡ some s') × Inv s'
unfolding proc_reap
proc_reap-Inv s p c i over n =
    let (live, not_init, mine) = listed-child s p c i n in
    let e : s.parent c ≡ p = ground arith in
    let s' : Procs = record s {
      children = set s.children p (remove c (s.children p));
      live = set s.live c false;
    } in
    let same : (◌≡◌ {A = Procs}
        (record s {
          children = set s.children (s.parent c) (remove c (s.children (s.parent c)));
          live = set s.live c false;
        })
        s') =
      ap
        (λ q. record s {
          children = set s.children q (remove c (s.children q));
          live = set s.live c false;
        })
        e in
    (s', rw mine refl, subst Inv same (reap-Inv s c i live not_init over))

pub exit-Moved-Inv :
    (s s' : Procs) (p status sig : ℕ)
    → Inv s
    → (p == init) ≡ false
    → Moved (record s { exiting = set s.exiting p true }) s' p (s.children p)
    → Inv record s' { exit_code = set s'.exit_code p status; exit_sig = set s'.exit_sig p sig }
exit-Moved-Inv s s' p status sig i not_init m = record {
  kids = m.kids;
  rooted = λ c alive other. elim (m.parents c) [
    | inl at ↦ rw (at, m.live) (i.init_live)
    | inr same ↦
        rw (same, m.live) (i.rooted c (ap (λ (f : ℕ → Bool). f c) (sym m.live) ∙ alive) other)
  ];
  childless = λ q over. elim (Bool-cases (p == q)) [
    | inl at ↦ let e : p ≡ q = ground arith in ap s'.children (sym e) ∙ m.left
    | inr off ↦
        let over_s : s.exiting q ≡ true =
          sym (ap (λ (f : ℕ → Bool). f q) m.exiting ∙ rw off refl) ∙ over in
        let q_init : (init == q) ≡ false = elim (Bool-cases (init == q)) [
          | inr e ↦ e
          | inl e ↦
              let at : init ≡ q = ground arith in
              let stays : s.exiting q ≡ false = ap s.exiting (sym at) ∙ i.init_stays in absurd (cc)
        ] in
        m.others q off q_init ∙ i.childless q over_s
  ];
  ends = λ c dead.
      let dead_s : s.zombie c ≡ true = ap (λ (f : ℕ → Bool). f c) (sym m.zombie) ∙ dead in
      let over = i.ends c dead_s in
      let now : set s.exiting p true c ≡ true = elim (Bool-cases (p == c)) [
        | inl e ↦ rw e refl
        | inr e ↦ rw e over
      ] in
      ap (λ (f : ℕ → Bool). f c) m.exiting ∙ now;
  init_live = ap (λ (f : ℕ → Bool). f init) m.live ∙ i.init_live;
  init_stays = ap (λ (f : ℕ → Bool). f init) m.exiting ∙ rw not_init (i.init_stays);
}

-- the children of a process that exits go to init
pub proc_exit-Moved :
    (s s' : Procs) (p status sig : ℕ)
    → Inv s
    → s.exiting p ≡ false
    → proc_exit p status sig s ≡ some s'
    → (s1 : Procs) × Moved (record s { exiting = set s.exiting p true }) s1 p (s.children p)
      × ((p == init) ≡ false)
      × (s' ≡ record s1 { exit_code = set s1.exit_code p status; exit_sig = set s1.exit_sig p sig })
unfolding proc_exit
proc_exit-Moved s s' p status sig i runs e =
    let s0 : Procs = record s { exiting = set s.exiting p true } in
    let s1 = reparent_all (s.children p) s0 in
    elim (Bool-cases (p == init)) [
      | inl root ↦ let no_state : none ≡ some s' = sym (rw root refl) ∙ e in absurd (cc)
      | inr below ↦
          let m = reparent_all-Moved (s.children p) s0 p below i.kids refl in
          let done : (◌≡◌ {A = Option Procs}
              (some record s1 {
                exit_code = set s1.exit_code p status;
                exit_sig = set s1.exit_sig p sig;
              })
              (some s')) =
            sym (rw (below, runs) refl) ∙ e in
          (s1, m, below, cc)
    ]

-- `proc_exit_final` of a process that has exited
pub proc_exit_final-Inv :
    (s s' : Procs) (p : ℕ)
    → Inv s
    → s.live p ≡ true
    → (p == init) ≡ false
    → s.exiting p ≡ true
    → proc_exit_final p s ≡ some s'
    → Inv s'
unfolding proc_exit_final proc_reap proc_do_sigchld
proc_exit_final-Inv s s' p i live not_init over e = elim (Bool-cases (s.autoreap (s.parent p))) [
  | inl auto ↦
      let self = ==_refl (s.parent p) in
      let s1 : Procs = record s {
        children = set s.children (s.parent p) (remove p (s.children (s.parent p)));
        live = set s.live p false;
      } in
      let done : ◌≡◌ {A = Option Procs} (some s1) (some s') = sym (rw (auto, self) refl) ∙ e in
      let same : s1 ≡ s' = cc in subst Inv same (reap-Inv s p i live not_init over)
  | inr plain ↦
      let s1 : Procs = record s { zombie = set s.zombie p true; woken = s.parent p ∷ s.woken } in
      let done : ◌≡◌ {A = Option Procs} (some s1) (some s') = sym (rw plain refl) ∙ e in
      let same : s1 ≡ s' = cc in
      let i1 : Inv s1 = record {
        kids = i.kids;
        rooted = i.rooted;
        childless = i.childless;
        ends = λ c dead. elim (Bool-cases (p == c)) [
          | inl at ↦ let e : p ≡ c = ground arith in ap s.exiting (sym e) ∙ over
          | inr off ↦
              let keep : set s.zombie p true c ≡ s.zombie c = rw off refl in
              i.ends c (sym keep ∙ dead)
        ];
        init_live = i.init_live;
        init_stays = i.init_stays;
      } in
      subst Inv same i1
]
