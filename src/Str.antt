-- ===== src/Str.antt =====
-- The string routines of lib/: strlen.c, strcmp.c, memcmp.c, memchr.c, strchr.c, strcpy.c and strcat.c. A
-- pointer is the list of bytes from it to the end of its buffer; `none` stands for an access behind
-- the end. Two buffers do not overlap. A pointer that is returned is its offset.
-- The value that `strchr` looks for is compared as it is, as a number like the bytes.
pub mod Copy
pub mod Compare
mod Tests
use elos.Base.{
  ℕ, zero, suc, ◌+◌, ◌-◌, ◌<◌, ◌%◌, Bool, true, false, ◌&&◌, not, Option, none, some, List, [], ◌∷◌,
  ◌++◌, if◌then◌else◌, ltb, ◌==◌, length,
}

abbrev pub inc : Option ℕ → Option ℕ
inc none = none
inc (some n) = some (suc n)

abbrev pub prepend : ℕ → Option (List ℕ) → Option (List ℕ)
prepend c none = none
prepend c (some s) = some (c ∷ s)

-- the string that a buffer holds: the bytes before the first 0
unfoldable pub cstr : List ℕ → Option (List ℕ)
cstr [] = none
cstr (c ∷ s) = let rest = prepend c (cstr s) in if c == 0 then some [] else rest

unfoldable pub strlen : List ℕ → Option ℕ
strlen [] = none
strlen (c ∷ s) = let rest = inc (strlen s) in if c == 0 then some 0 else rest

unfoldable pub strnlen : List ℕ → (max : ℕ) → Option ℕ
strnlen s zero = some 0
strnlen [] (suc max) = none
strnlen (c ∷ s) (suc max) = let rest = inc (strnlen s max) in if c == 0 then some 0 else rest

-- a result of -1, 0 or 1
pub data Sign : Type 0 where
  below same above : Sign

unfoldable pub strcmp : List ℕ → List ℕ → Option Sign
strcmp [] t = none
strcmp (c ∷ s) [] = none
strcmp (c ∷ s) (d ∷ t) =
    let rest = strcmp s t in
    if c == d then (if c == 0 then some same else rest) else some (if ltb c d then below else above)

unfoldable pub memcmp : List ℕ → List ℕ → (n : ℕ) → Option Sign
memcmp p q zero = some same
memcmp [] q (suc n) = none
memcmp (c ∷ p) [] (suc n) = none
memcmp (c ∷ p) (d ∷ q) (suc n) =
    let rest = memcmp p q n in if ltb d c then some above else if ltb c d then some below else rest

-- the offset of a byte, `none` within for NULL
abbrev pub move_on : Option (Option ℕ) → Option (Option ℕ)
move_on none = none
move_on (some p) = some (inc p)

unfoldable pub memchr : List ℕ → (value n : ℕ) → Option (Option ℕ)
memchr p value zero = some none
memchr [] value (suc n) = none
memchr (c ∷ p) value (suc n) =
    let rest = move_on (memchr p value n) in if c == value % 256 then some (some 0) else rest

unfoldable pub strchr : List ℕ → (value : ℕ) → Option (Option ℕ)
strchr [] value = none
strchr (c ∷ s) value =
    let rest = move_on (strchr s value) in
    if c == 0 then some none else if c == value then some (some 0) else rest

unfoldable pub strcpy : (dest src : List ℕ) → Option (List ℕ)
strcpy [] src = none
strcpy (d ∷ dest) [] = none
strcpy (d ∷ dest) (c ∷ src) =
    let rest = prepend c (strcpy dest src) in if c == 0 then some (0 ∷ dest) else rest

-- `strlcpy`: the buffer and the length of the source. `strlcpy_loop` is the copy with `n` bytes left
-- after the decrement, `strlcpy_end` what is done when there is none left.
abbrev pub terminated : List ℕ → (len : Option ℕ) → Option (List ℕ × ℕ)
terminated dst none = none
terminated dst (some len) = some (0 ∷ dst, len)

abbrev pub strlcpy_end : (dst src : List ℕ) → Option (List ℕ × ℕ)
strlcpy_end [] src = none
strlcpy_end (d ∷ dst) src = terminated dst (strlen src)

abbrev pub prepend_counted : ℕ → Option (List ℕ × ℕ) → Option (List ℕ × ℕ)
prepend_counted c none = none
prepend_counted c (some (s, len)) = some (c ∷ s, suc len)

unfoldable pub strlcpy_loop : (n : ℕ) → (dst src : List ℕ) → Option (List ℕ × ℕ)
strlcpy_loop zero dst src = strlcpy_end dst src
strlcpy_loop (suc n) [] src = none
strlcpy_loop (suc n) (d ∷ dst) [] = none
strlcpy_loop (suc n) (d ∷ dst) (c ∷ src) =
    let rest = prepend_counted c (strlcpy_loop n dst src) in
    if c == 0 then some (0 ∷ dst, 0) else rest

-- The assertion forbids a size of 0.
unfoldable pub strlcpy : (dst src : List ℕ) → (max : ℕ) → Option (List ℕ × ℕ)
strlcpy dst src zero = none
strlcpy dst src (suc n) = strlcpy_loop n dst src

unfoldable pub strcat : (dst src : List ℕ) → Option (List ℕ)
unfolding strcpy
strcat [] src = none
strcat (d ∷ dst) src =
    let rest = prepend d (strcat dst src) in if d == 0 then strcpy (d ∷ dst) src else rest

-- the second loop of `strncat`, with `max` bytes left, and its last write
unfoldable pub strncat_copy : (max : ℕ) → (dst src : List ℕ) → Option (List ℕ)
strncat_copy max [] src = none
strncat_copy zero (d ∷ dst) src = some (0 ∷ dst)
strncat_copy (suc max) (d ∷ dst) [] = none
strncat_copy (suc max) (d ∷ dst) (c ∷ src) =
    let rest = prepend c (strncat_copy max dst src) in if c == 0 then some (0 ∷ dst) else rest

-- The first loop of `strncat` has gone past the 0 when it ends.
unfoldable pub strncat_find : (max : ℕ) → (dst src : List ℕ) → Option (List ℕ)
unfolding strncat_copy
strncat_find max [] src = none
strncat_find max (d ∷ dst) src =
    let rest = prepend d (strncat_find max dst src) in
    if d == 0 then prepend d (strncat_copy max dst src) else rest

unfoldable pub strncat : (dst src : List ℕ) → (max : ℕ) → Option (List ℕ)
strncat dst src zero = none
strncat dst src (suc max) = strncat_find (suc max) dst src
