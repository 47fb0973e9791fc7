-- ===== src/User/Strings.antt =====
-- `copyinstr`: the string that it finds, or why there is none.
use elos.Base.{
  ℕ, zero, suc, ◌+◌, ◌-◌, ◌<◌, ◌≡◌, refl, ap, ◌∙◌, min, Bool, true, false, ◌||◌, Option, none, some,
  List, [], ◌∷◌, if◌then◌else◌, leb, ◌==◌, length, arith, Bool-cases, inl, inr, ◌⊎◌,
}
use elos.Base.Errno.{Result, ok, err, efault, enametoolong}
use elos.User.{Memory, user_vm_end, region_is_user, load, rubyte, copyinstr_loop, copyinstr}
use elos.User.Copy.{load-step, io_check-ok}

unfoldable pub has_zero : List ℕ → Bool
has_zero [] = false
has_zero (b ∷ bs) = (b == 0) || has_zero bs

-- The string `bs` stands at `str`, with its terminator, within `n` bytes.
pub record IsString (m : Memory) (str n : ℕ) (bs : List ℕ) : Type 0 where
  pub short : length bs < n
  pub bytes : load m str (length bs) ≡ some bs
  pub end : m.read (str + length bs) ≡ some 0
  pub text : has_zero bs ≡ false

-- `n` bytes can be read at `str`, and none of them is 0.
abbrev pub Unterminated : Memory → (str n : ℕ) → Type 0
Unterminated m str n = (bs : List ℕ) × (load m str n ≡ some bs) × (has_zero bs ≡ false)

-- What the loop returns for `n` bytes at `str`, when `len` bytes of the buffer are filled.
abbrev pub Scanned : Memory → (n str len bufsz : ℕ) → Result (List ℕ) → Type 0
Scanned m n str len bufsz (ok bs) = IsString m str n bs
Scanned m n str len bufsz (err e) =
    ((e ≡ efault) × ((k : ℕ) × (k < n) × (m.read (str + k) ≡ none)))
    ⊎ (Unterminated m str n × (e ≡ (if leb bufsz (len + n) then enametoolong else efault)))

module _ (m : Memory) (n str len bufsz b : ℕ) (here : m.read str ≡ some b)
    (ne : (b == 0) ≡ false) where
  more : Result (List ℕ) → Result (List ℕ)
  more r = elim r [ err e ↦ err e | ok bs ↦ ok (b ∷ bs) ]

  Scanned-more :
      (r : Result (List ℕ))
      → Scanned m n (suc str) (len + 1) bufsz r
      → Scanned m (suc n) str len bufsz (more r)
  unfolding more load has_zero
  Scanned-more (ok bs) s =
      let sum : str + suc (length bs) ≡ suc str + length bs = omega arith in
      record {
        short = omega (arith, s.short);
        bytes = load-step m str b (length bs) bs here s.bytes;
        end = ap m.read sum ∙ s.end;
        text = rw (ne, s.text) refl;
      }
  Scanned-more (err e) (inl (ef, (k, lt, fault))) =
      let sum : str + suc k ≡ suc str + k = omega arith in
      inl (ef, (suc k, omega arith, ap m.read sum ∙ fault))
  Scanned-more (err e) (inr ((bs, bytes, text), why)) =
      let sum : len + 1 + n ≡ len + suc n = omega arith in
      inr (
        (b ∷ bs, load-step m str b n bs here bytes, rw (ne, text) refl),
        why ∙ ap (λ k. if leb bufsz k then enametoolong else efault) sum,
      )

copyinstr_loop-Scanned :
    (m : Memory) (n str len bufsz : ℕ)
    → Scanned m n str len bufsz (copyinstr_loop m n str len bufsz)
unfolding copyinstr_loop load has_zero rubyte more
copyinstr_loop-Scanned m zero str len bufsz =
    let sum : len + 0 ≡ len = omega arith in
    elim (Bool-cases (leb bufsz len)) [
      | inl full ↦ rw full (inr (([], refl, refl), rw (sum, full) refl))
      | inr room ↦ rw room (inr (([], refl, refl), rw (sum, room) refl))
    ]
copyinstr_loop-Scanned m (suc n) str len bufsz =
    go (m.read str) refl (copyinstr_loop-Scanned m n (suc str) (len + 1) bufsz)
  where
    go :
        (r : Option ℕ)
        → m.read str ≡ r
        → Scanned m n (suc str) (len + 1) bufsz (copyinstr_loop m n (suc str) (len + 1) bufsz)
        → Scanned m (suc n) str len bufsz (copyinstr_loop m (suc n) str len bufsz)
    go none e rest =
        let at : str + 0 ≡ str = omega arith in
        rw (copyinstr_loop, rubyte, e) (inl (refl, (0, omega arith, ap m.read at ∙ e)))
    go (some b) e rest = elim (Bool-cases (b == 0)) [
      | inl end ↦
          let at : str + 0 ≡ str = omega arith in
          let zero_byte : b ≡ 0 = ground arith in
          rw (copyinstr_loop, rubyte, e, end)
            (record {
              short = omega arith;
              bytes = refl;
              end = ap m.read at ∙ e ∙ ap some zero_byte;
              text = refl;
            })
      | inr text ↦
          rw (copyinstr_loop, rubyte, e, text)
            (Scanned-more m n str len bufsz b e text (copyinstr_loop m n (suc str) (len + 1) bufsz)
              rest)
    ]

-- From an address in user memory, and for a buffer of `bufsz` bytes, `copyinstr` returns a string only
-- if it stands there with its terminator inside the buffer's size and user memory; it fails with
-- EFAULT only if a byte in this range faults or user memory ends before a terminator, and with
-- ENAMETOOLONG only if the buffer is full and there was none.
pub copyinstr-Scanned :
    (m : Memory) (str bufsz : ℕ)
    → region_is_user str 0 ≡ true
    → Scanned m (min bufsz (user_vm_end - str + 1)) str 0 bufsz (copyinstr m str bufsz)
unfolding copyinstr
copyinstr-Scanned m str bufsz h =
    let run : copyinstr m str bufsz
        ≡ copyinstr_loop m (min bufsz (user_vm_end - str + 1)) str 0 bufsz =
      rw (copyinstr, io_check-ok str 0 h) refl in
    rw run (copyinstr_loop-Scanned m (min bufsz (user_vm_end - str + 1)) str 0 bufsz)
