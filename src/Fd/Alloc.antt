-- ===== src/Fd/Alloc.antt =====
-- `fdalloc` and `fdalloc2` of vfs/proc.c.
use elos.Base.{
  ℕ, zero, suc, ◌+◌, ◌-◌, ◌%◌, ◌≤◌, ◌<◌, ◌≡◌, ◌≢◌, refl, sym, subst, ap, ◌∙◌, Bool, true, false,
  inl, inr, ◌&&◌, arith, Bool-cases, ltb, leb, ◌==◌, if◌then◌else◌, Option, some, none, ne→==_false,
  ◌⊎◌, ℕ_discrete,
}
use elos.Base.Errno.{Result, ok, err, einval, enfile}
use elos.Fd.{Files, Table, proc_files, fd_invalid, put, file_ref, file_unref}
use elos.Fd.{find_free, fdalloc_intern, fdalloc, fdalloc2, fdalloc2_second, entry}
use elos.Fd.Refs.{holds, Balanced, count-put, file_ref-ref, Balanced-trans}

-- entry `j` is empty and stands in [low, high)
abbrev pub free_between : Table → (low high j : ℕ) → Bool
free_between t low high j = leb low j && ltb j high && (t j == 0)

-- entry `fd` is the first empty one from `low` on
pub record FirstFree (t : Table) (low fd : ℕ) : Type 0 where
  pub above : low ≤ fd
  pub below : fd < proc_files
  pub empty : t fd ≡ 0
  pub first : (j : ℕ) → free_between t low fd j ≡ false

abbrev Search : Table → (n i : ℕ) → Option ℕ → Type 0
Search t n i none = (j : ℕ) → free_between t i (i + n) j ≡ false
Search t n i (some fd) =
    (i ≤ fd) × (fd < i + n) × (t fd ≡ 0) × ((j : ℕ) → free_between t i fd j ≡ false)

Search-later :
    (t : Table) (n i : ℕ) (r : Option ℕ) → t i ≢ 0 → Search t n (suc i) r → Search t (suc n) i r
Search-later t n i none used h = λ j. elim (ℕ_discrete i j) [
  | yes e ↦ let u : t j ≢ 0 = rw e at used in ground (arith, u)
  | no ne ↦ ground (arith, h j)
]
Search-later t n i (some fd) used (a, b, c, d) = (
  omega arith,
  omega arith,
  c,
  λ j. elim (ℕ_discrete i j) [
    | yes e ↦ let u : t j ≢ 0 = rw e at used in ground (arith, u)
    | no ne ↦ ground (arith, d j)
  ],
)

find_free-Search : (n i : ℕ) (t : Table) → Search t n i (find_free n i t)
unfolding find_free
find_free-Search zero i t = λ j. ground arith
find_free-Search (suc n) i t = elim (ℕ_discrete (t i) 0) [
  | yes here ↦
      let hit : (t i == 0) ≡ true = ground arith in
      simp hit (omega arith, omega arith, here, λ j. ground arith)
  | no used ↦
      let miss : (t i == 0) ≡ false = ne→==_false _ _ used in
      simp miss (Search-later t n i (find_free n (suc i) t) used (find_free-Search n (suc i) t))
]

-- What `fdalloc` does, by its result.
abbrev pub Allocated : (file : ℕ) → (cloexec : Bool) → (low : ℕ) → Files → Result ℕ → Files → Type 0
Allocated file cloexec low s (err e) s' =
    (s' ≡ s)
    × (((e ≡ einval) × (proc_files ≤ low))
        ⊎ ((e ≡ enfile) × ((j : ℕ) → free_between s.table low proc_files j ≡ false)))
Allocated file cloexec low s (ok fd) s' =
    FirstFree s.table low fd × (s' ≡ put (file_ref file s) fd (entry file cloexec)) × Balanced s s'

pub new_entry :
    (file : ℕ) (cloexec : Bool) → file % 2 ≡ 0 → entry file cloexec - entry file cloexec % 2 ≡ file
new_entry file true even = omega arith
new_entry file false even = omega arith

placed-Balanced :
    (file fd : ℕ) (cloexec : Bool) (s : Files)
    → file % 2 ≡ 0
    → fd < proc_files
    → s.table fd ≡ 0
    → Balanced s (put (file_ref file s) fd (entry file cloexec))
unfolding file_ref
placed-Balanced file fd cloexec s even l empty g =
    let f = suc g in
    let held : ℕ → ℕ = λ w. if w == f then 1 else 0 in
    let none_here : holds f s.table fd ≡ 0 = rw empty (ground arith) in
    omega (
      arith,
      count-put f (file_ref file s) fd (entry file cloexec) l,
      none_here,
      ap held (new_entry file cloexec even),
      file_ref-ref file f s,
    )

Search-Allocated :
    (file : ℕ) (cloexec : Bool) (low : ℕ) (s : Files) (r : Option ℕ)
    → file % 2 ≡ 0
    → low < proc_files
    → Search s.table (proc_files - low) low r
    → let (res, s') : Result ℕ × Files = elim r [
      | none ↦ (err enfile, s)
      | some i ↦ (ok i, put (file_ref file s) i (entry file cloexec))
    ] in
      Allocated file cloexec low s res s'
Search-Allocated file cloexec low s none even l h =
    let sum : low + (proc_files - low) ≡ proc_files = omega arith in
    (refl, inr (refl, subst (λ n. (j : ℕ) → free_between s.table low n j ≡ false) sum h))
Search-Allocated file cloexec low s (some fd) even l (a, b, c, d) =
    let below : fd < proc_files = omega arith in
    (
      record { above = a; below = below; empty = c; first = d },
      refl,
      placed-Balanced file fd cloexec s even below c,
    )

pub fdalloc_intern-Allocated :
    (file : ℕ) (cloexec : Bool) (low : ℕ) (s : Files)
    → file % 2 ≡ 0
    → let (r, s') = fdalloc_intern file cloexec low s in Allocated file cloexec low s r s'
unfolding fdalloc_intern
fdalloc_intern-Allocated file cloexec low s even = elim (Bool-cases (fd_invalid low)) [
  | inl bad ↦ simp bad (refl, inl (refl, ground arith))
  | inr good ↦ simp good (
      Search-Allocated file cloexec low s (find_free (proc_files - low) low s.table) even
        (ground arith) (find_free-Search (proc_files - low) low s.table))
]

-- Given an aligned file, `fdalloc` takes the first empty entry from `low` on for it, writes the file
-- with its flag there and nothing else, and keeps references and entries in balance; it fails with
-- EINVAL only if `low` is out of range and with ENFILE only if no entry from `low` on is empty, and
-- then changes nothing.
pub fdalloc-Allocated :
    (file : ℕ) (cloexec : Bool) (low : ℕ) (s : Files)
    → file % 2 ≡ 0
    → let (r, s') = fdalloc file cloexec low s in Allocated file cloexec low s r s'
unfolding fdalloc
fdalloc-Allocated file cloexec low s even = fdalloc_intern-Allocated file cloexec low s even

-- Two states that no caller can tell apart: the tables and the counters agree.
pub record Same (s s' : Files) : Type 0 where
  pub table : (i : ℕ) → s'.table i ≡ s.table i
  pub ref : (f : ℕ) → s'.ref f ≡ s.ref f
  pub closed : s'.closed ≡ s.closed

-- What `fdalloc2` does: two different entries or none.
abbrev pub AllocatedBoth : Files → Result (ℕ × ℕ) → Files → Type 0
AllocatedBoth s (err e) s' = Same s s'
AllocatedBoth s (ok (fd0, fd1)) s' =
    (fd0 < fd1) × (fd1 < proc_files) × (s.table fd0 ≡ 0) × (s.table fd1 ≡ 0) × Balanced s s'

-- one entry written and then emptied again
release-Same :
    (file fd : ℕ) (cloexec : Bool) (s : Files)
    → s.table fd ≡ 0
    → 0 < s.ref file
    → Same s (file_unref file (put (put (file_ref file s) fd (entry file cloexec)) fd 0))
unfolding file_ref file_unref
release-Same file fd cloexec s empty live =
    let alive : ((if file == file then s.ref file + 1 else s.ref file) == 1) ≡ false =
      ground arith in
    record {
      table = λ i. elim (ℕ_discrete fd i) [
        | yes e ↦ let z : s.table i ≡ 0 = rw e at empty in ground (arith, z)
        | no ne ↦ ground arith
      ];
      ref = λ g. ground arith;
      closed = simp alive;
    }

Same-refl : (s : Files) → Same s s
Same-refl s = record { table = λ i. refl; ref = λ f. refl; closed = refl }

-- the second entry, after the first one was written
second-AllocatedBoth :
    (file0 file1 : ℕ) (cloexec : Bool) (s s1 : Files) (fd0 : ℕ) (r : Result ℕ) (s2 : Files)
    → file0 % 2 ≡ 0
    → file0 ≢ 0
    → 0 < s.ref file0
    → FirstFree s.table 0 fd0
    → s1 ≡ put (file_ref file0 s) fd0 (entry file0 cloexec)
    → Balanced s s1
    → Allocated file1 cloexec 0 s1 r s2
    → let (r', s') : Result (ℕ × ℕ) × Files = elim r [
      | ok fd1 ↦ (ok (fd0, fd1), s2)
      | err e ↦ (err e, file_unref file0 (put s2 fd0 0))
    ] in
      AllocatedBoth s r' s'
unfolding file_ref
second-AllocatedBoth file0 file1 cloexec s s1 fd0 (err e) s2 even ne live f at b (same_state, why) =
    rw (same_state, at) (release-Same file0 fd0 cloexec s f.empty live)
second-AllocatedBoth file0 file1 cloexec s s1 fd0 (ok fd1) s2 even ne live f at b (g, at2, b2) =
    let written : entry file0 cloexec ≢ 0 =
      λ z. ne (sym (new_entry file0 cloexec even) ∙ ap (λ w. w - w % 2) z) in
    let free1 : (if fd0 == fd1 then entry file0 cloexec else s.table fd1) ≡ 0 = rw at at g.empty in
    let apart : fd0 ≢ fd1 = ground (arith, written) in
    let free0 : s.table fd1 ≡ 0 = ground (arith, apart) in
    (
      ground (arith, apart, free0, f.first fd1),
      g.below,
      f.empty,
      free0,
      Balanced-trans s s1 s2 b b2,
    )

-- `fdalloc2` of two aligned files finds two different empty entries and keeps the balance, or rolls back.
pub fdalloc2-AllocatedBoth :
    (file0 file1 : ℕ) (cloexec : Bool) (s : Files)
    → file0 % 2 ≡ 0
    → file1 % 2 ≡ 0
    → file0 ≢ 0
    → 0 < s.ref file0
    → let (r, s') = fdalloc2 file0 file1 cloexec s in AllocatedBoth s r s'
unfolding fdalloc2
fdalloc2-AllocatedBoth file0 file1 cloexec s even0 even1 ne live =
    let (r, s') = fdalloc_intern file0 cloexec 0 s in
    go r s' (fdalloc_intern-Allocated file0 cloexec 0 s even0)
  where
    go :
        (r : Result ℕ) (s' : Files)
        → Allocated file0 cloexec 0 s r s'
        → let (r', s'') = fdalloc2_second file0 file1 cloexec (r, s') in AllocatedBoth s r' s''
    go (err e) s' (same_state, why) = rw same_state (Same-refl s)
    go (ok fd0) s' (f, at, b) =
        let (r, s2) = fdalloc_intern file1 cloexec 0 s' in
        second-AllocatedBoth file0 file1 cloexec s s' fd0 r s2 even0 ne live f at b
          (fdalloc_intern-Allocated file1 cloexec 0 s' even1)
