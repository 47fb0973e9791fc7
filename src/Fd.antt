-- ===== src/Fd.antt =====
-- vfs/proc.c: the descriptor table of a process, with the reference counts of vfs/file.h and
-- kern/atomic.h; and the system calls of vfs/sys.c that work on the table alone. A pointer is its
-- address, 0 for NULL. The table's lock is held by each operation from its first look at the table
-- to its last change of it, so an operation is one step. The path fields of the process, and what
-- `file_close` does to the file system, are not modelled. `none` stands for the failed assertion of
-- `vfs_proc_fork`; those of `fdalloc_intern` on the file it is given, and of the reference counter,
-- are left out.
pub mod Refs
pub mod Alloc
pub mod Both
pub mod Procs
pub mod Calls
mod Tests
use elos.Base.{
  ℕ, zero, suc, ◌+◌, ◌-◌, ◌*◌, ◌/◌, ◌%◌, ◌^◌, Bool, true, false, ◌&&◌, ◌||◌, Option, none, some,
  List, [], ◌∷◌, not, if◌then◌else◌, ltb, leb, ◌==◌,
}
use elos.Base.Errno.{Result, ok, err, ebadf, einval, enfile}

-- `ftype_t`
pub data Ftype : Type 0 where
  funk freg fdir fdev fsock fpipe : Ftype

abbrev pub is_dir : Ftype → Bool
is_dir fdir = true
is_dir _ = false

-- `files` of `vfs_proc_t`: an entry is the address of a file, with FLAG_CLOEXEC in its lowest bit.
abbrev pub Table : Type 0
Table = ℕ → ℕ

-- A process's table and the `file_t` objects, by address; `closed` lists those that were closed and
-- freed, the last one first.
pub record Files : Type 0 where
  pub table : Table
  pub ref : ℕ → ℕ
  pub type : ℕ → Ftype
  pub flags : ℕ → ℕ
  pub closed : List ℕ

abbrev pub proc_files : ℕ
proc_files = 50

abbrev pub flag_cloexec : ℕ
flag_cloexec = 1

-- `fd_file`: the lowest bit cleared
abbrev pub fd_file : Table → ℕ → ℕ
fd_file t fd = t fd - t fd % 2

-- `pls->files[fd] & FLAG_CLOEXEC`
abbrev pub cloexec_bit : Table → ℕ → ℕ
cloexec_bit t fd = t fd % 2

-- `w | FLAG_CLOEXEC`
abbrev pub with_cloexec : ℕ → ℕ
with_cloexec w = w - w % 2 + flag_cloexec

-- the entry of a file with or without the flag
abbrev pub entry : (file : ℕ) → (cloexec : Bool) → ℕ
entry file cloexec = if cloexec then with_cloexec file else file

-- `fd_invalid`; an `int` is its 32-bit word, negative from 2 ^ 31 on
abbrev pub fd_invalid : ℕ → Bool
fd_invalid fd = leb (2 ^ 31) fd || leb proc_files fd

-- `pls->files[fd] = w`
abbrev pub put : Files → ℕ → ℕ → Files
put s fd w = record s { table = λ i. if fd == i then w else s.table i }

unfoldable pub file_ref : ℕ → Files → Files
file_ref f s = record s { ref = λ g. if f == g then s.ref g + 1 else s.ref g }

-- `file_unref`, which closes and frees the file with its last reference
unfoldable pub file_unref : ℕ → Files → Files
file_unref f s = record s {
  ref = λ g. if f == g then s.ref g - 1 else s.ref g;
  closed = if s.ref f == 1 then f ∷ s.closed else s.closed;
}

-- The loop of `vfs_proc_fork` over the `n` descriptors from `i` on: the new table and the files.
unfoldable pub fork_loop : (n i : ℕ) → (dst : Table) → Files → Option (Table × Files)
unfolding file_ref
fork_loop zero i dst s = some (dst, s)
fork_loop (suc n) i dst s =
    let file = fd_file s.table i in
    let dst' : Table = λ j. if i == j then s.table i else dst j in
    let next = if not (file == 0) then file_ref file s else s in
    let rest = fork_loop n (suc i) dst' next in
    if (file == 0) && not (cloexec_bit s.table i == 0) then none else rest

unfoldable pub vfs_proc_fork : (dst : Table) → Files → Option (Table × Files)
unfolding fork_loop
vfs_proc_fork dst s = fork_loop proc_files 0 dst s

-- one round of the loop of `vfs_proc_exec`
unfoldable pub exec_entry : ℕ → Files → Files
unfolding file_unref
exec_entry i s =
    let file = fd_file s.table i in
    if not (file == 0) && (not (cloexec_bit s.table i == 0) || is_dir (s.type file))
    then put (file_unref file s) i 0
    else s

unfoldable pub exec_loop : (n i : ℕ) → Files → Files
unfolding exec_entry
exec_loop zero i s = s
exec_loop (suc n) i s = exec_loop n (suc i) (exec_entry i s)

unfoldable pub vfs_proc_exec : Files → Files
unfolding exec_loop
vfs_proc_exec s = exec_loop proc_files 0 s

unfoldable pub exit_loop : (n i : ℕ) → Files → Files
unfolding file_unref
exit_loop zero i s = s
exit_loop (suc n) i s =
    exit_loop n (suc i) (if not (s.table i == 0) then file_unref (fd_file s.table i) s else s)

-- `vfs_proc_exit`; the entries are left as they are, the table is freed with the process
unfoldable pub vfs_proc_exit : Files → Files
unfolding exit_loop
vfs_proc_exit s = exit_loop proc_files 0 s

unfoldable pub fdfree : ℕ → Files → Result ℕ × Files
unfolding file_unref
fdfree fd s =
    let file = fd_file s.table fd in
    let s' = put s fd 0 in
    if fd_invalid fd
    then (err ebadf, s)
    else if not (file == 0)
    then (ok 0, file_unref file s')
    else (err ebadf, s')

-- The search of `fdalloc_intern`, over the `n` descriptors from `i` on.
unfoldable pub find_free : (n i : ℕ) → Table → Option ℕ
find_free zero i t = none
find_free (suc n) i t = let rest = find_free n (suc i) t in if t i == 0 then some i else rest

unfoldable pub fdalloc_intern : (file : ℕ) → (cloexec : Bool) → (low : ℕ) → Files → Result ℕ × Files
unfolding find_free file_ref
fdalloc_intern file cloexec low s =
    if fd_invalid low then (err einval, s) else elim (find_free (proc_files - low) low s.table) [
      | none ↦ (err enfile, s)
      | some i ↦ (ok i, put (file_ref file s) i (entry file cloexec))
    ]

unfoldable pub fdalloc : (file : ℕ) → (cloexec : Bool) → (low : ℕ) → Files → Result ℕ × Files
unfolding fdalloc_intern
fdalloc file cloexec low s = fdalloc_intern file cloexec low s

-- `fdalloc2`, with the two descriptors as its value. The second half is a function of its own.
unfoldable pub fdalloc2_second :
    (file0 file1 : ℕ) → (cloexec : Bool) → Result ℕ × Files → Result (ℕ × ℕ) × Files
unfolding fdalloc_intern file_unref
fdalloc2_second file0 file1 cloexec (err e, s) = (err e, s)
fdalloc2_second file0 file1 cloexec (ok fd0, s) =
    let (res, s') = fdalloc_intern file1 cloexec 0 s in
    elim res [ ok fd1 ↦ (ok (fd0, fd1), s') | err e ↦ (err e, file_unref file0 (put s' fd0 0)) ]

unfoldable pub fdalloc2 : (file0 file1 : ℕ) → (cloexec : Bool) → Files → Result (ℕ × ℕ) × Files
unfolding fdalloc2_second fdalloc_intern
fdalloc2 file0 file1 cloexec s =
    fdalloc2_second file0 file1 cloexec (fdalloc_intern file0 cloexec 0 s)

unfoldable pub fddup : (file newfd : ℕ) → Files → Result ℕ × Files
unfolding file_ref file_unref
fddup file newfd s =
    let old = fd_file s.table newfd in
    let s' = put (file_ref file s) newfd file in
    if fd_invalid newfd
    then (err ebadf, s)
    else (ok newfd, if not (old == 0) then file_unref old s' else s')

-- `fdget`: the file, or 0 for NULL
unfoldable pub fdget : ℕ → Files → ℕ × Files
unfolding file_ref
fdget fd s =
    let file = fd_file s.table fd in
    if fd_invalid fd then (0, s) else (file, if not (file == 0) then file_ref file s else s)

unfoldable pub fd_cloexec_get : ℕ → Files → Result ℕ
fd_cloexec_get fd s =
    if fd_invalid fd
    then err ebadf
    else if s.table fd == 0
    then err ebadf
    else ok (cloexec_bit s.table fd)

unfoldable pub fd_cloexec_set : ℕ → (cloexec : Bool) → Files → Result ℕ × Files
fd_cloexec_set fd cloexec s =
    let w = s.table fd in
    if fd_invalid fd
    then (err ebadf, s)
    else if w == 0
    then (err ebadf, s)
    else (ok 0, put s fd (if cloexec then with_cloexec w else w - w % 2))

unfoldable pub sys_dup : ℕ → Files → Result ℕ × Files
sys_dup fd s =
    let (file, s1) = fdget fd s in
    let (res, s2) = fdalloc file false 0 s1 in
    if file == 0 then (err ebadf, s1) else (res, file_unref file s2)

unfoldable pub sys_dup2 : (oldfd newfd : ℕ) → Files → Result ℕ × Files
sys_dup2 oldfd newfd s =
    let (file, s1) = fdget oldfd s in
    let (res, s2) = fddup file newfd s1 in
    if file == 0 then (err ebadf, s1) else (res, file_unref file s2)

-- the commands of `fcntl`
abbrev pub f_dupfd : ℕ
f_dupfd = 0

abbrev pub f_getfd : ℕ
f_getfd = 1

abbrev pub f_setfd : ℕ
f_setfd = 2

abbrev pub f_getfl : ℕ
f_getfl = 3

abbrev pub f_setfl : ℕ
f_setfl = 4

abbrev pub f_dupfd_cloexec : ℕ
f_dupfd_cloexec = 1030

-- `arg & O_CLOEXEC`, with O_CLOEXEC = 02000000
abbrev pub has_o_cloexec : ℕ → Bool
has_o_cloexec arg = not (arg / 2 ^ 19 % 2 == 0)

abbrev pub bit : (w n : ℕ) → ℕ
bit w n = w / 2 ^ n % 2 * 2 ^ n

-- `w & SETFL_FLAGS`, the bits of O_APPEND, O_NONBLOCK and O_NOATIME
abbrev pub setfl_bits : ℕ → ℕ
setfl_bits w = bit w 10 + bit w 11 + bit w 18

-- the switch of `sys_fcntl64` for the commands that need the file
unfoldable pub fcntl_file : (file cmd arg : ℕ) → Files → Result ℕ × Files
unfolding fdalloc
fcntl_file file cmd arg s =
    let flags : ℕ → ℕ =
      λ g. if file == g then s.flags g - setfl_bits (s.flags g) + arg else s.flags g in
    if cmd == f_dupfd_cloexec
    then fdalloc file true arg s
    else if cmd == f_dupfd
    then fdalloc file false arg s
    else if cmd == f_getfl
    then (ok (s.flags file), s)
    else if cmd == f_setfl
    then (ok 0, if arg == setfl_bits arg then record s { flags = flags } else s)
    else (err einval, s)

unfoldable pub sys_fcntl64 : (fd cmd arg : ℕ) → Files → Result ℕ × Files
unfolding fcntl_file fdget file_unref fd_cloexec_get fd_cloexec_set
sys_fcntl64 fd cmd arg s =
    let (file, s1) = fdget fd s in
    let (res, s2) = fcntl_file file cmd arg s1 in
    if cmd == f_getfd
    then (fd_cloexec_get fd s, s)
    else if cmd == f_setfd
    then fd_cloexec_set fd (has_o_cloexec arg) s
    else if file == 0
    then (err ebadf, s1)
    else (res, file_unref file s2)
