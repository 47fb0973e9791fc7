-- ===== src/Uio/Tests.antt =====
-- vfs/uio.c with two buffers of two and three bytes, and an empty one between them.
use elos.Base.{ℕ, suc, ◌*◌, ◌%◌, ◌≡◌, refl, true, Option, none, some, List, [], ◌∷◌, length, take}
use elos.Base.Errno.{Result, ok, err, einval}
use elos.User.{Memory, copyin, load, region_is_user, user_io_check}
use elos.Uio.{Iovec, Uio, Moved, uiomove, move_loop, copyinuio, advance}
use elos.Uio.Stream.{Stream}
use elos.Uio.Rounds.{Left}
use elos.Uio.Move.{uiomove-Left}
use elos.Uio.Sizes.{copyinuio-total_len}

abbrev memory : Memory
memory = record { read = λ a. some (a % 256); writable = λ a. true }

abbrev buffers : List Iovec
buffers =
    record { iov_base = 8192; iov_len = 2 }
    ∷ record { iov_base = 0; iov_len = 0 }
    ∷ record { iov_base = 8449; iov_len = 3 }
    ∷ []

abbrev uio : Uio
uio = record { iov = buffers; off = 7; size = 5 }

abbrev bytes : List ℕ
bytes = 0 ∷ 1 ∷ 1 ∷ 2 ∷ 3 ∷ []

buffers-Stream : Stream memory buffers bytes
unfolding load region_is_user
buffers-Stream = (
  0 ∷ 1 ∷ [],
  1 ∷ 2 ∷ 3 ∷ [],
  refl,
  refl,
  record { inside = refl; loaded = refl },
  (
    [],
    1 ∷ 2 ∷ 3 ∷ [],
    refl,
    refl,
    record { inside = refl; loaded = refl },
    (1 ∷ 2 ∷ 3 ∷ [], [], refl, refl, record { inside = refl; loaded = refl }, refl),
  ),
)

abbrev bytes_of : Option Moved → Result (List ℕ)
bytes_of none = err einval
bytes_of (some r) = r.result

four_moved : bytes_of (uiomove 7 memory 4 uio) ≡ ok (0 ∷ 1 ∷ 1 ∷ 2 ∷ [])
unfolding uiomove move_loop advance copyin user_io_check load region_is_user
four_moved = refl

uiomove-Left_example :
    (left : Uio) × (uiomove (suc (2 * length buffers)) memory 4 uio
      ≡ some (record { result = ok (take 4 bytes); left = left }))
    × Left memory 4 uio bytes left
uiomove-Left_example = uiomove-Left memory 4 uio bytes buffers-Stream refl

copyinuio-total_len_example :
    copyinuio 3 true (ok buffers) ≡ ok (record { iov = buffers; off = 0; size = 5 })
copyinuio-total_len_example = copyinuio-total_len 3 buffers
