-- ===== src/Fd/Calls.antt =====
-- `fdfree`, `fddup`, the close-on-exec flag, and the system calls on descriptors.
use elos.Base.{
  ℕ, suc, ◌-◌, ◌/◌, ◌%◌, ◌^◌, ◌<◌, ◌≡◌, ◌≢◌, refl, Bool, true, false, inl, inr, not, arith,
  Bool-cases, ◌==◌, if◌then◌else◌, ==_refl,
}
use elos.Base.Errno.{Result, ok, err}
use elos.Fd.{Files, proc_files, fd_file, fd_invalid, put, file_ref, file_unref}
use elos.Fd.{
  fdfree, fddup, fdget, fdalloc, sys_dup, fd_cloexec_get, fd_cloexec_set, sys_dup2, sys_fcntl64,
  f_setfd, with_cloexec,
}
use elos.Fd.Refs.{holds, Counted, Balanced, count-put, le-count, file_ref-ref, file_unref-ref}
use elos.Fd.Alloc.{Allocated, fdalloc-Allocated}

valid_below : (fd : ℕ) → fd_invalid fd ≡ false → fd < proc_files
valid_below fd h = ground arith

-- `fdfree` of any descriptor keeps references and entries in balance.
pub fdfree-Balanced : (fd : ℕ) (s : Files) → Counted s → let (r, s') = fdfree fd s in Balanced s s'
unfolding fdfree
fdfree-Balanced fd s counted g = elim (Bool-cases (fd_invalid fd)) [
  | inl bad ↦ rw bad refl
  | inr good ↦
      let f = suc g in
      let small = valid_below fd good in
      let none_left : (if 0 - 0 % 2 == f then suc 0 else 0) ≡ 0 = ground arith in
      let used = le-count f s.table fd small in
      elim (Bool-cases (not (fd_file s.table fd == 0))) [
        | inl file ↦
            rw (good, file)
              (omega (
                arith,
                file_unref-ref (fd_file s.table fd) f (put s fd 0),
                count-put f s fd 0 small,
                used,
                counted g,
                none_left,
              ))
        | inr null ↦
            let here : holds f s.table fd ≡ 0 = ground arith in
            rw (good, null) (omega (arith, count-put f s fd 0 small, here, none_left))
      ]
]

-- `fddup` of an aligned file to any descriptor keeps references and entries in balance.
pub fddup-Balanced :
    (file newfd : ℕ) (s : Files)
    → file % 2 ≡ 0
    → Counted s
    → let (r, s') = fddup file newfd s in Balanced s s'
unfolding fddup file_ref
fddup-Balanced file newfd s even counted g = elim (Bool-cases (fd_invalid newfd)) [
  | inl bad ↦ rw bad refl
  | inr good ↦
      let f = suc g in
      let small = valid_below newfd good in
      let new : (if file - file % 2 == f then suc 0 else 0) ≡ (if file == f then suc 0 else 0) =
        ground arith in
      let used = le-count f s.table newfd small in
      let s1 = file_ref file s in
      elim (Bool-cases (not (fd_file s.table newfd == 0))) [
        | inl old ↦
            rw (good, old)
              (omega (
                arith,
                file_unref-ref (fd_file s.table newfd) f (put s1 newfd file),
                file_ref-ref file f s,
                count-put f s1 newfd file small,
                used,
                counted g,
                new,
              ))
        | inr null ↦
            let here : holds f s.table newfd ≡ 0 = ground arith in
            rw (good, null)
              (omega (arith, file_ref-ref file f s, count-put f s1 newfd file small, here, new))
      ]
]

-- What `fd_cloexec_set` writes to an open descriptor, `fd_cloexec_get` reads, and the file in the
-- entry stays the same.
pub cloexec_get-cloexec_set :
    (fd : ℕ) (cloexec : Bool) (s : Files)
    → fd_invalid fd ≡ false
    → fd_file s.table fd ≢ 0
    → let (r, s') = fd_cloexec_set fd cloexec s in
      (r ≡ ok 0)
      × (fd_cloexec_get fd s' ≡ ok (if cloexec then 1 else 0))
      × (fd_file s'.table fd ≡ fd_file s.table fd)
unfolding fd_cloexec_set fd_cloexec_get
cloexec_get-cloexec_set fd true s good open_file =
    let used : (s.table fd == 0) ≡ false = ground arith in
    let set : (with_cloexec (s.table fd) == 0) ≡ false = ground arith in
    let same : (fd == fd) ≡ true = ==_refl fd in
    let bit : with_cloexec (s.table fd) % 2 ≡ 1 = omega arith in
    (rw (good, used) refl, simp (good, used, same, set, bit), rw (good, used, same) (omega arith))
cloexec_get-cloexec_set fd false s good open_file =
    let used : (s.table fd == 0) ≡ false = ground arith in
    let left : (s.table fd - s.table fd % 2 == 0) ≡ false = ground arith in
    let same : (fd == fd) ≡ true = ==_refl fd in
    let bit : (s.table fd - s.table fd % 2) % 2 ≡ 0 = omega arith in
    (rw (good, used) refl, simp (good, used, same, left, bit), rw (good, used, same) (omega arith))

-- The command F_SETFD of `sys_fcntl64` tests O_CLOEXEC in its argument: every argument below 2 ^ 19,
-- FD_CLOEXEC itself included, clears the flag.
pub fcntl_setfd_clears :
    (fd arg : ℕ) (s : Files)
    → arg < 2 ^ 19
    → sys_fcntl64 fd f_setfd arg s ≡ fd_cloexec_set fd false s
unfolding sys_fcntl64
fcntl_setfd_clears fd arg s small =
    let quotient : arg / 2 ^ 19 ≡ 0 = omega arith in rw quotient refl

-- A reference taken for the time of a balanced operation, and dropped after it.
borrowed :
    (file : ℕ) (s s2 : Files)
    → Counted s
    → Balanced (file_ref file s) s2
    → Balanced s (file_unref file s2)
unfolding file_ref file_unref
borrowed file s s2 counted b g =
    let f = suc g in omega (arith, b g, counted g, file_ref-ref file f s, file_unref-ref file f s2)

Counted-ref : (file : ℕ) (s : Files) → Counted s → Counted (file_ref file s)
unfolding file_ref
Counted-ref file s counted g = omega (arith, counted g, file_ref-ref file (suc g) s)

-- `sys_dup2` of any two descriptors keeps references and entries in balance: on every path it drops
-- the reference that it takes for the time of the call.
pub sys_dup2-Balanced :
    (oldfd newfd : ℕ) (s : Files)
    → Counted s
    → let (r, s') = sys_dup2 oldfd newfd s in Balanced s s'
unfolding sys_dup2 fdget
sys_dup2-Balanced oldfd newfd s counted = elim (Bool-cases (fd_invalid oldfd)) [
  | inl bad ↦ rw bad (λ g. refl)
  | inr good ↦ elim (Bool-cases (fd_file s.table oldfd == 0)) [
    | inl null ↦ rw (good, null) (λ g. refl)
    | inr file ↦
        let (r, s2) = fddup (fd_file s.table oldfd) newfd (file_ref (fd_file s.table oldfd) s) in
        rw (good, file)
          (borrowed (fd_file s.table oldfd) s s2 counted (
            fddup-Balanced (fd_file s.table oldfd) newfd (file_ref (fd_file s.table oldfd) s)
              (omega arith) (Counted-ref (fd_file s.table oldfd) s counted)))
  ]
]

Allocated-Balanced :
    (file : ℕ) (s : Files) (r : Result ℕ) (s' : Files)
    → Allocated file false 0 s r s'
    → Balanced s s'
Allocated-Balanced file s (err e) s' (same, why) = rw same (λ g. refl)
Allocated-Balanced file s (ok fd) s' (first, at, b) = b

-- `sys_dup` of any descriptor keeps references and entries in balance, also when no entry is left.
pub sys_dup-Balanced :
    (fd : ℕ) (s : Files) → Counted s → let (r, s') = sys_dup fd s in Balanced s s'
unfolding sys_dup fdget
sys_dup-Balanced fd s counted = elim (Bool-cases (fd_invalid fd)) [
  | inl bad ↦ rw bad (λ g. refl)
  | inr good ↦ elim (Bool-cases (fd_file s.table fd == 0)) [
    | inl null ↦ rw (good, null) (λ g. refl)
    | inr file ↦
        let f = fd_file s.table fd in
        let (r, s2) = fdalloc f false 0 (file_ref f s) in
        rw (good, file)
          (borrowed f s s2 counted (
            Allocated-Balanced f (file_ref f s) r s2
              (fdalloc-Allocated f false 0 (file_ref f s) (omega arith))))
  ]
]
