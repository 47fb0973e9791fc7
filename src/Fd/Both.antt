-- ===== src/Fd/Both.antt =====
-- `fdalloc2` of vfs/proc.c: the state that it leaves, and when it fails.
use elos.Base.{
  ℕ, ◌%◌, ◌<◌, ◌≡◌, ◌≢◌, refl, sym, ap, ◌∙◌, Bool, false, inl, inr, ◌==◌, if◌then◌else◌, arith,
  ℕ_discrete,
}
use elos.Base.Errno.{Result, ok, err}
use elos.Fd.{
  Files, Table, proc_files, put, file_ref, file_unref, fdalloc_intern, fdalloc2, fdalloc2_second,
  entry,
}
use elos.Fd.Alloc.{
  Allocated, free_between, fdalloc_intern-Allocated, AllocatedBoth, fdalloc2-AllocatedBoth,
}

-- there are no two empty entries
abbrev pub NoTwo : Table → Type 0
NoTwo t = (i j : ℕ) → i < proc_files → j < proc_files → t i ≡ 0 → t j ≡ 0 → i ≡ j

-- the state with both entries
abbrev pub placed : (file0 file1 : ℕ) → (cloexec : Bool) → Files → (fd0 fd1 : ℕ) → Files
placed file0 file1 cloexec s fd0 fd1 =
    put (file_ref file1 (put (file_ref file0 s) fd0 (entry file0 cloexec))) fd1
      (entry file1 cloexec)

-- What is known of the state by the result of `fdalloc2`.
abbrev pub Shape : (file0 file1 : ℕ) → (cloexec : Bool) → Files → Result (ℕ × ℕ) → Files → Type 0
Shape file0 file1 cloexec s (err e) s' = (s'.flags ≡ s.flags) × NoTwo s.table
Shape file0 file1 cloexec s (ok (fd0, fd1)) s' = s' ≡ placed file0 file1 cloexec s fd0 fd1

none_free :
    (t : Table) (j : ℕ)
    → ((i : ℕ) → free_between t 0 proc_files i ≡ false)
    → j < proc_files
    → t j ≢ 0
none_free t j used l e = let u = used j in ground arith

second-Shape :
    (file0 file1 : ℕ) (cloexec : Bool) (s s1 : Files) (fd0 : ℕ) (r : Result ℕ) (s2 : Files)
    → s1 ≡ put (file_ref file0 s) fd0 (entry file0 cloexec)
    → Allocated file1 cloexec 0 s1 r s2
    → let (r', s') : Result (ℕ × ℕ) × Files = elim r [
      | ok fd1 ↦ (ok (fd0, fd1), s2)
      | err e ↦ (err e, file_unref file0 (put s2 fd0 0))
    ] in
      Shape file0 file1 cloexec s r' s'
unfolding file_ref file_unref
second-Shape file0 file1 cloexec s s1 fd0 (ok fd1) s2 at (f, at2, b) =
    at2 ∙ ap (λ (x : Files). put (file_ref file1 x) fd1 (entry file1 cloexec)) at
second-Shape file0 file1 cloexec s s1 fd0 (err e) s2 at (same, inl (why, big)) =
    absurd (omega arith)
second-Shape file0 file1 cloexec s s1 fd0 (err e) s2 at (same, inr (why, used)) =
    let t1 : (j : ℕ) → s1.table j ≡ (if fd0 == j then entry file0 cloexec else s.table j) =
      λ j. ap (λ (x : Files). x.table j) at in
    let only : (j : ℕ) → j < proc_files → s.table j ≡ 0 → fd0 ≡ j = λ j l z.
      elim (ℕ_discrete fd0 j) [
        | yes e ↦ e
        | no ne ↦
            let other : (fd0 == j) ≡ false = ground arith in
            let empty : s1.table j ≡ 0 = t1 j ∙ rw other z in
            absurd (none_free s1.table j used l empty)
      ] in
    (rw (same, at) refl, λ i j li lj zi zj. sym (only i li zi) ∙ only j lj zj)

pub fdalloc2-Shape :
    (file0 file1 : ℕ) (cloexec : Bool) (s : Files)
    → file0 % 2 ≡ 0
    → file1 % 2 ≡ 0
    → let (r, s') = fdalloc2 file0 file1 cloexec s in Shape file0 file1 cloexec s r s'
unfolding fdalloc2
fdalloc2-Shape file0 file1 cloexec s even0 even1 =
    let (r, s') = fdalloc_intern file0 cloexec 0 s in
    go r s' (fdalloc_intern-Allocated file0 cloexec 0 s even0)
  where
    go :
        (r : Result ℕ) (s' : Files)
        → Allocated file0 cloexec 0 s r s'
        → let (r', s'') = fdalloc2_second file0 file1 cloexec (r, s') in
          Shape file0 file1 cloexec s r' s''
    go (err e) s' (same, inl (why, big)) = absurd (omega arith)
    go (err e) s' (same, inr (why, used)) =
        (rw same refl, λ i j li lj zi zj. absurd (none_free s.table i used li zi))
    go (ok fd0) s' (f, at, b) =
        let (r, s2) = fdalloc_intern file1 cloexec 0 s' in
        second-Shape file0 file1 cloexec s s' fd0 r s2 at
          (fdalloc_intern-Allocated file1 cloexec 0 s' even1)

-- What `fdalloc2` does, by its result: two entries written and the counters raised, or nothing.
abbrev pub PlacedBoth :
    (file0 file1 : ℕ) → (cloexec : Bool) → Files → Result (ℕ × ℕ) → Files → Type 0
PlacedBoth file0 file1 cloexec s r s' = AllocatedBoth s r s' × Shape file0 file1 cloexec s r s'

-- `fdalloc2` of two aligned files, the first of which its caller holds, writes them with their flag into two
-- different entries that were empty, the first file into the lower one, takes a reference to each and
-- changes nothing else, so that entries and references stay in balance. It fails only if there are no
-- two empty entries, and then the table, the counters and the closed files are what they were, so that
-- no file was closed by the roll-back.
pub fdalloc2-PlacedBoth :
    (file0 file1 : ℕ) (cloexec : Bool) (s : Files)
    → file0 % 2 ≡ 0
    → file1 % 2 ≡ 0
    → file0 ≢ 0
    → 0 < s.ref file0
    → let (r, s') = fdalloc2 file0 file1 cloexec s in PlacedBoth file0 file1 cloexec s r s'
fdalloc2-PlacedBoth file0 file1 cloexec s even0 even1 ne live = (
  fdalloc2-AllocatedBoth file0 file1 cloexec s even0 even1 ne live,
  fdalloc2-Shape file0 file1 cloexec s even0 even1,
)
