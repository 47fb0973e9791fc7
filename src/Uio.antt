-- ===== src/Uio.antt =====
-- vfs/uio.c: vectors of buffers in user memory (UIO_USER), which are read and written as one stream. The
-- vectors of kernel buffers, and what a failed move leaves, are not modelled. `none` stands for an access
-- behind the last buffer, or for a loop that is cut off by its fuel.
pub mod Stream
pub mod Rounds
pub mod Move
pub mod Sizes
mod Tests
use elos.Base.{
  ℕ, zero, suc, ◌+◌, ◌-◌, ◌*◌, ◌^◌, min, Bool, true, false, ◌||◌, not, Option, none, some, List, [],
  ◌∷◌, ◌++◌, if◌then◌else◌, ltb, leb, ◌==◌,
}
use elos.Base.Errno.{Errno, Result, ok, err, einval, enomem}
use elos.User.{Memory, copyin}

-- `struct iovec`
pub record Iovec : Type 0 where
  pub iov_base : ℕ
  pub iov_len : ℕ

-- `uio_t`, without its direction and flags
pub record Uio : Type 0 where
  pub iov : List Iovec
  pub off : ℕ
  pub size : ℕ

abbrev pub iov_max : ℕ
iov_max = 1024

abbrev pub size_max : ℕ
size_max = 4294967295

-- the loop of `copyinuio` that adds the sizes
unfoldable pub add_sizes : List Iovec → (size : ℕ) → Result ℕ
add_sizes [] size = ok size
add_sizes (v ∷ vs) size =
    let rest = add_sizes vs (size + v.iov_len) in
    if ltb (size_max - size) v.iov_len then err einval else rest

-- `copyinuio`: whether `kmalloc` returned a uio, and the vectors that `copyin` brought from user memory
abbrev pub sized : List Iovec → Result ℕ → Result Uio
sized vs (err e) = err e
sized vs (ok size) = ok (record { iov = vs; off = 0; size = size })

abbrev pub with_vectors : Result (List Iovec) → Result Uio
with_vectors (err e) = err e
with_vectors (ok vs) = sized vs (add_sizes vs 0)

unfoldable pub copyinuio :
    (iovc : ℕ) → (allocated : Bool) → (copied : Result (List Iovec)) → Result Uio
copyinuio iovc allocated copied =
    if leb iov_max iovc
    then err einval
    else if not allocated
    then err enomem
    else with_vectors copied

-- the uio after `num` bytes of its first buffer
unfoldable pub advance : Uio → Iovec → List Iovec → (num : ℕ) → Uio
advance u v rest num = record {
  iov = (record { iov_base = v.iov_base + num; iov_len = v.iov_len - num }) ∷ rest;
  off = u.off + num;
  size = u.size - num;
}

pub record Moved : Type 0 where
  pub result : Result (List ℕ)
  pub left : Uio

abbrev pub prepend_bytes : List ℕ → Option Moved → Option Moved
prepend_bytes bs none = none
prepend_bytes bs (some r) = elim r.result [
  | err e ↦ some (record r { result = err e })
  | ok more ↦ some (record r { result = ok (bs ++ more) })
]

-- the loop of `uiomove` with UIO_WR: at most `size` bytes from user memory
unfoldable pub move_loop : (fuel : ℕ) → Memory → (size : ℕ) → Uio → Option Moved
unfolding copyin advance
move_loop zero m size u = none
move_loop (suc fuel) m size u =
    let stop : Option Moved = some (record { result = ok []; left = u }) in
    let go : Option Moved = elim u.iov [
      | [] ↦ none
      | v ∷ rest ↦
          let num = min size v.iov_len in
          let skipped = move_loop fuel m size (record u { iov = rest }) in
          let more = move_loop fuel m (size - num) (advance u v rest num) in
          let moved : Option Moved = elim (copyin m v.iov_base num) [
            | err e ↦ some (record { result = err e; left = u })
            | ok bs ↦ prepend_bytes bs more
          ] in
          if v.iov_len == 0 then skipped else moved
    ] in
    if (size == 0) || (u.size == 0) then stop else go

unfoldable pub uiomove : (fuel : ℕ) → Memory → (size : ℕ) → Uio → Option Moved
unfolding move_loop
uiomove fuel m size u = move_loop fuel m size u
