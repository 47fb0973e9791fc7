-- ===== src/Fd/Refs.antt =====
-- The number of references to a file against the entries of vfs/proc.c that hold it.
use elos.Base.{ℕ, suc, ◌+◌, ◌-◌, ◌%◌, ◌≤◌, ◌<◌, ◌≡◌, ap, ◌∙◌, arith, ◌==◌, if◌then◌else◌}
use elos.Phys.Sum.{sum_to, sum_to_change, le-sum_to}
use elos.Fd.{Files, Table, proc_files, fd_file, put, file_ref, file_unref}

-- 1 if the entry holds the file
abbrev pub holds : ℕ → Table → ℕ → ℕ
holds f t i = if fd_file t i == f then 1 else 0

-- the number of entries that hold the file
unfoldable pub count : ℕ → Table → ℕ
count f t = sum_to proc_files (holds f t)

-- Each entry's reference is counted. A file is not NULL, so that its address is a successor.
abbrev pub Counted : Files → Type 0
Counted s = (g : ℕ) → count (suc g) s.table ≤ s.ref (suc g)

-- `s'` has as many references to each file beside those of its table as `s` has
abbrev pub Balanced : Files → Files → Type 0
Balanced s s' =
    (g : ℕ) → s'.ref (suc g) + count (suc g) s.table ≡ s.ref (suc g) + count (suc g) s'.table

pub count-put :
    (f : ℕ) (s : Files) (i w : ℕ)
    → i < proc_files
    → count f (put s i w).table + holds f s.table i
      ≡ count f s.table + (if w - w % 2 == f then 1 else 0)
unfolding count
count-put f s i w l =
    let h =
      sum_to_change proc_files i (holds f (put s i w).table) (holds f s.table) l
        (λ j ne. ground arith) in
    let at : holds f (put s i w).table i ≡ (if w - w % 2 == f then 1 else 0) = ground arith in
    h ∙ ap (λ x. count f s.table + x) at

pub le-count : (f : ℕ) (t : Table) (i : ℕ) → i < proc_files → holds f t i ≤ count f t
unfolding count
le-count f t i l = le-sum_to proc_files i (holds f t) l

-- `file_ref` and `file_unref`, as they change one counter
pub file_ref-ref :
    (f g : ℕ) (s : Files) → (file_ref f s).ref g ≡ s.ref g + (if f == g then 1 else 0)
unfolding file_ref
file_ref-ref f g s = ground arith

pub file_unref-ref :
    (f g : ℕ) (s : Files) → (file_unref f s).ref g ≡ s.ref g - (if f == g then 1 else 0)
unfolding file_unref
file_unref-ref f g s = ground arith

pub Balanced-trans : (s s' s'' : Files) → Balanced s s' → Balanced s' s'' → Balanced s s''
Balanced-trans s s' s'' a b g = omega (arith, a g, b g)

pub Balanced-Counted : (s s' : Files) → Counted s → Balanced s s' → Counted s'
Balanced-Counted s s' c b g = omega (arith, c g, b g)
