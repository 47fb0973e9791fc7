-- ===== src/Fd/Tests.antt =====
-- vfs/proc.c on a table with a file, a file that is closed on exec, and a directory.
use elos.Base.{ℕ, ◌+◌, ◌≡◌, ◌≢◌, refl, true, false, [], arith, ◌==◌, if◌then◌else◌}
use elos.Base.Errno.{ok}
use elos.Fd.{Files, Table, freg, fdir, fdalloc, fdalloc2, vfs_proc_exec, flag_cloexec}
use elos.Fd.Refs.{count, Counted}
use elos.Fd.Both.{PlacedBoth, fdalloc2-PlacedBoth}

abbrev entries : Table
entries i = if i == 0 then 8 else if i == 1 then 17 else if i == 3 then 32 else 0

-- each file has one reference beside those of the table
abbrev files : Files
files = record {
  table = entries;
  ref = λ f. count f entries + 1;
  type = λ f. if f == 32 then fdir else freg;
  flags = λ f. 0;
  closed = [];
}

files-Counted : Counted files
files-Counted g = omega arith

allocated : (fdalloc 64 true 1 files).0 ≡ ok 2
unfolding fdalloc
allocated = refl

swept_table : (vfs_proc_exec files).table 0 ≡ 8
unfolding vfs_proc_exec
swept_table = refl

fdalloc2-PlacedBoth_example :
    let (r, s') = fdalloc2 64 66 false files in PlacedBoth 64 66 false files r s'
fdalloc2-PlacedBoth_example =
    fdalloc2-PlacedBoth 64 66 false files refl refl (λ e. ground arith) (omega arith)

no_bare_flag : (j : ℕ) → entries j ≢ flag_cloexec
no_bare_flag j e = ground arith
