-- ===== src/Pipe.antt =====
-- kern/pipe.c: pipes on the files of Fd and the buffers of Ringbuf. What `kmalloc`, the slab of the files and
-- `copyout` return is an argument, 0 for NULL; the buffer's memory is allocated with VM_WAIT. `none` stands
-- for the use of NULL or of a pipe that was freed. The clock, `pipe_stat`, and reading and writing, which
-- move a uio, are not modelled.
pub mod Ends
pub mod Calls
pub mod Open
pub mod Paths
pub mod Success
mod Tests
use elos.Base.{
  ℕ, zero, suc, ◌+◌, ◌-◌, ◌/◌, ◌%◌, ◌^◌, Bool, true, false, ◌&&◌, ◌||◌, not, Option, none, some,
  List, [], ◌∷◌, if◌then◌else◌, ◌==◌,
}
use elos.Base.Errno.{Errno, Result, ok, err, enomem}
use elos.Ringbuf.{Ringbuf, ringbuf_alloc, ringbuf_eof}
use elos.Fd.{
  Files, Ftype, fpipe, fd_file, fd_invalid, put, file_unref, fdfree, fdalloc2, has_o_cloexec,
}

infixl 5 ◌>>=◌
abbrev pub ◌>>=◌ : {A B : Type 0} → Option A → (A → Option B) → Option B
some a >>= f = f a
none >>= f = none

-- `pipe_t`; the bits of `closed`
pub record Pipe : Type 0 where
  pub buf : Ringbuf
  pub closed_read : Bool
  pub closed_write : Bool

-- The files, the private pointers of those that are pipes, the pipes by address, and the pipes that were
-- freed, the last one first.
pub record Pipes : Type 0 where
  pub files : Files
  pub priv : ℕ → ℕ
  pub pipes : ℕ → Option Pipe
  pub freed : List ℕ

abbrev pub put_pipe : Pipes → ℕ → Option Pipe → Pipes
put_pipe k addr p = record k { pipes = λ a. if addr == a then p else k.pipes a }

-- following a pointer to a pipe
abbrev pub pipe_at : Pipes → ℕ → Option Pipe
pipe_at k addr = if addr == 0 then none else k.pipes addr

-- `pipe_alloc` with what `kmalloc` returned
unfoldable pub pipe_alloc : (addr : ℕ) → (storage : List ℕ) → Pipes → Option (ℕ × Pipes)
pipe_alloc addr storage k =
    if addr == 0
    then some (0, k)
    else ringbuf_alloc storage >>= λ rb. some (
      addr,
      put_pipe k addr (some record { buf = rb; closed_read = false; closed_write = false }),
    )

unfoldable pub pipe_free : (addr : ℕ) → Pipes → Option Pipes
pipe_free addr k =
    pipe_at k addr >>= λ p. some (record (put_pipe k addr none) { freed = addr ∷ k.freed })

-- `FWRITEABLE`
abbrev pub writeable : ℕ → Bool
writeable flags = not (flags / 2 ^ 21 % 2 == 1) && (flags % 4 == 1 || flags % 4 == 2)

-- `pipe_close` once the pipe was found
unfoldable pub close_end : (addr : ℕ) → (writer : Bool) → Pipe → Pipes → Option Pipes
close_end addr writer p k =
    let closed = record p {
      buf = ringbuf_eof p.buf;
      closed_read = p.closed_read || not writer;
      closed_write = p.closed_write || writer;
    } in
    let k' = put_pipe k addr (some closed) in
    if if writer then p.closed_read else p.closed_write then pipe_free addr k' else some k'

unfoldable pub pipe_close : (file : ℕ) → Pipes → Option Pipes
pipe_close file k =
    pipe_at k (k.priv file) >>= λ p. close_end (k.priv file) (writeable (k.files.flags file)) p k

-- `file_unref` of a pipe's file, which closes it with its last reference
unfoldable pub unref : (file : ℕ) → Pipes → Option Pipes
unref file k =
    let k' = record k { files = file_unref file k.files } in
    if k.files.ref file == 1 then pipe_close file k' else some k'

-- `fdfree` of a descriptor of a pipe
unfoldable pub close_fd : (fd : ℕ) → Pipes → Option Pipes
close_fd fd k =
    let file = fd_file k.files.table fd in
    let k' = record k { files = (fdfree fd k.files).1 } in
    if not (fd_invalid fd) && not (file == 0) && (k.files.ref file == 1)
    then pipe_close file k'
    else some k'

-- `file_alloc` of type FPIPE, of a file that the slab returned
unfoldable pub file_alloc : (file flags : ℕ) → Pipes → Pipes
file_alloc file flags k = record k {
  files = record k.files {
    ref = λ f. if file == f then 1 else k.files.ref f;
    type = λ f. if file == f then fpipe else k.files.type f;
    flags = λ f. if file == f then flags else k.files.flags f;
  };
  priv = λ f. if file == f then 0 else k.priv f;
}

-- `file_set_priv` of a file that has none
unfoldable pub file_set_priv : (file addr : ℕ) → Pipes → Pipes
file_set_priv file addr k = record k { priv = λ f. if file == f then addr else k.priv f }

abbrev pub Piped : Type 0
Piped = Option (Result (ℕ × ℕ) × Pipes)

-- the labels `err_rd_file` and `err_fd` of `sys_pipe2`
abbrev pub err_rd_file : Errno → (addr : ℕ) → Pipes → Piped
err_rd_file e addr k = pipe_free addr k >>= λ k1. some (err e, k1)

abbrev pub err_fd : Errno → (addr f0 f1 : ℕ) → Pipes → Piped
err_fd e addr f0 f1 k = unref f1 k >>= λ k1. unref f0 k1 >>= err_rd_file e addr

-- from the call of `copyout` on; `copied` is its error
unfoldable pub pipe_copyout :
    (copied : Option Errno) → (addr f0 f1 : ℕ) → Result (ℕ × ℕ) × Files → Pipes → Piped
pipe_copyout copied addr f0 f1 (err e, files) k = err_fd e addr f0 f1 (record k { files = files })
pipe_copyout none addr f0 f1 (ok (fd0, fd1), files) k =
    unref f0 (record k { files = files }) >>= λ k1. unref f1 k1 >>= λ k2. some (ok (fd0, fd1), k2)
pipe_copyout (some e) addr f0 f1 (ok (fd0, fd1), files) k =
    close_fd fd0 (record k { files = files }) >>= λ k1. close_fd fd1 k1 >>= err_fd e addr f0 f1

-- both ends in the slab's files `f0` and `f1`
unfoldable pub pipe_ends : (addr f0 f1 flags : ℕ) → Pipes → Pipes
pipe_ends addr f0 f1 flags k =
    file_set_priv f1 addr
      (file_set_priv f0 addr (file_alloc f1 (flags + 1) (file_alloc f0 flags k)))

-- The value is the two descriptors that were copied out.
unfoldable pub sys_pipe2 :
    (storage : List ℕ) → (addr f0 f1 : ℕ) → (copied : Option Errno) → (flags : ℕ) → Pipes → Piped
sys_pipe2 storage addr f0 f1 copied flags k =
    let file_flags = if flags / 2 ^ 11 % 2 == 1 then 2 ^ 11 else 0 in
    pipe_alloc addr storage k >>= λ (pipe, k1).
    if pipe == 0
    then some (err enomem, k1)
    else if f0 == 0
    then err_rd_file enomem pipe k1
    else if f1 == 0
    then unref f0 (file_alloc f0 file_flags k1) >>= err_rd_file enomem pipe
    else let k2 = pipe_ends pipe f0 f1 file_flags k1 in
      pipe_copyout copied pipe f0 f1 (fdalloc2 f0 f1 (has_o_cloexec flags) k2.files) k2
