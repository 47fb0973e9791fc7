-- ===== src/Cbuf/Tests.antt =====
-- lib/cbuf.c on a buffer of four bytes, whose contents go round the end of the storage.
use elos.Base.{◌≡◌, refl, some, [], ◌∷◌, ◌++◌, arith, take, drop}
use elos.Cbuf.{Cbuf, cbuf_size, blit, cbuf_read, cbuf_write}
use elos.Cbuf.Refine.{IsValid, contents, cbuf_read_lem, cbuf_write_lem}

abbrev wrapped : Cbuf
wrapped = record { mem = 8 ∷ 0 ∷ 0 ∷ 7 ∷ []; rptr = 3; wptr = 1; level = 2 }

wrapped-IsValid : IsValid wrapped
wrapped-IsValid = record { start = omega arith; room = omega arith; next = refl }

read_both : cbuf_read wrapped 5 ≡ some (7 ∷ 8 ∷ [], record wrapped { rptr = 1; level = 0 })
unfolding cbuf_read
read_both = refl

write_two :
    cbuf_write wrapped 3 (1 ∷ 2 ∷ 3 ∷ [])
    ≡ some (2, record { mem = 8 ∷ 1 ∷ 2 ∷ 7 ∷ []; rptr = 3; wptr = 3; level = 4 })
unfolding cbuf_write blit
write_two = refl

cbuf_read_lem_example :
    (c' : Cbuf) × (cbuf_read wrapped 1 ≡ some (take 1 (contents wrapped), c'))
    × IsValid c'
    × (contents c' ≡ drop 1 (contents wrapped))
    × (cbuf_size c' ≡ 4)
cbuf_read_lem_example = cbuf_read_lem {c = wrapped} 1 wrapped-IsValid

cbuf_write_lem_example :
    (c' : Cbuf) × (cbuf_write wrapped 3 (1 ∷ 2 ∷ 3 ∷ []) ≡ some (2, c'))
    × IsValid c'
    × (contents c' ≡ contents wrapped ++ take 2 (1 ∷ 2 ∷ 3 ∷ []))
    × (cbuf_size c' ≡ 4)
cbuf_write_lem_example =
    cbuf_write_lem {c = wrapped} 3 (1 ∷ 2 ∷ 3 ∷ []) wrapped-IsValid (omega arith)
