-- ===== src/Cbuf.antt =====
-- lib/cbuf.c and include/lib/cbuf.h: a byte buffer that is read and written in a circle.
-- The storage between `first` and `last` is the list `mem`, and a pointer into it is its offset
-- from `first`, so `last` is the length of the storage.
pub mod Refine
pub mod Window
pub mod Writes
mod Tests
use elos.Base.{
  ℕ, zero, suc, ◌+◌, ◌-◌, ◌≤◌, ◌<◌, min, ◌≡◌, Bool, true, false, Option, none, some, List, [], ◌∷◌,
  ◌++◌, ◌==◌, if◌then◌else◌, length, set, take, drop, replicate,
}

pub record Cbuf : Type 0 where
  pub mem : List ℕ
  pub rptr : ℕ
  pub wptr : ℕ
  pub level : ℕ

abbrev pub cbuf_size : Cbuf → ℕ
cbuf_size c = length c.mem

unfoldable pub cbuf_is_full : Cbuf → Bool
cbuf_is_full c = c.level == cbuf_size c

unfoldable pub cbuf_is_empty : Cbuf → Bool
cbuf_is_empty c = c.level == 0

-- `storage` is what `kmalloc` returns, `none` for NULL.
unfoldable pub cbuf_alloc : Option (List ℕ) → Option Cbuf
cbuf_alloc none = none
cbuf_alloc (some storage) = some (record { mem = storage; rptr = 0; wptr = 0; level = 0 })

-- the bytes that a copy from `ptr` can take before it meets `last`
abbrev pub cbuf_iter_max : Cbuf → ℕ → ℕ → ℕ
cbuf_iter_max c ptr size = min (cbuf_size c - ptr) size

-- `if(ptr == last) ptr = first`
abbrev pub rewind : ℕ → ℕ → ℕ
rewind cap ptr = if ptr == cap then 0 else ptr

-- `memcpy` of bytes to the offset `w`
unfoldable pub blit : List ℕ → ℕ → List ℕ → List ℕ
blit mem w [] = mem
blit mem w (b ∷ bs) = blit (set mem w b) (suc w) bs

-- The loop of `cbuf_read`: the bytes copied out, in order, and the new read pointer. Each round
-- copies at least one byte, so `size + 1` rounds suffice; `none` means that they did not.
unfoldable pub read_loop : (fuel : ℕ) → List ℕ → (rptr size : ℕ) → Option (List ℕ × ℕ)
read_loop zero mem r size = none
read_loop (suc fuel) mem r size =
    let cur = min (length mem - r) size in
    elim (size == 0) [
      | true ↦ some ([], r)
      | false ↦ elim (read_loop fuel mem (rewind (length mem) (r + cur)) (size - cur)) [
        | none ↦ none
        | some (bs, r') ↦ some (take cur (drop r mem) ++ bs, r')
      ]
    ]

unfoldable pub cbuf_read : Cbuf → ℕ → Option (List ℕ × Cbuf)
unfolding read_loop
cbuf_read c size =
    let total = min c.level size in
    elim (read_loop (total + 1) c.mem c.rptr total) [
      | none ↦ none
      | some (bs, r') ↦ some (bs, record c { rptr = r'; level = c.level - total })
    ]

-- The loop of `cbuf_write` over the first `size` of the caller's bytes.
unfoldable pub write_loop : (fuel : ℕ) → List ℕ → (wptr size : ℕ) → List ℕ → Option (List ℕ × ℕ)
write_loop zero mem w size src = none
write_loop (suc fuel) mem w size src =
    let cur = min (length mem - w) size in
    elim (size == 0) [
      | true ↦ some (mem, w)
      | false ↦
          write_loop fuel (blit mem w (take cur src)) (rewind (length mem) (w + cur)) (size - cur)
            (drop cur src)
    ]

-- `src` is the caller's buffer; the source reads at most `size` bytes of it. Returns the count.
unfoldable pub cbuf_write : Cbuf → ℕ → List ℕ → Option (ℕ × Cbuf)
unfolding write_loop
cbuf_write c size src =
    let total = min (cbuf_size c - c.level) size in
    elim (write_loop (total + 1) c.mem c.wptr total src) [
      | none ↦ none
      | some (mem', w') ↦ some (total, record c { mem = mem'; wptr = w'; level = c.level + total })
    ]

unfoldable pub cbuf_discard : Cbuf → Cbuf
cbuf_discard c = record c { rptr = 0; wptr = 0; level = 0 }
