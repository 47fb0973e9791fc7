-- ===== src/User/Copy.antt =====
-- `copyout` and `copyin` on the same user memory.
use elos.Base.{
  sym, if◌then◌else◌, ◌&&◌, ℕ, suc, ◌+◌, ◌-◌, ◌≤◌, ◌<◌, ◌≡◌, refl, ap, ◌∙◌, true, false, none, some,
  List, [], ◌∷◌, ◌==◌, length, arith, Bool-cases, inl, inr, ◌⊎◌, ==_refl,
}
use elos.Base.Errno.{ok, err, efault}
use elos.User.{
  Memory, user_vm_end, region_is_user, user_io_check, load, poke, store, copyin, copyout,
  atomic_size, copyout_atomic,
}

store-below :
    (m : Memory) (addr : ℕ) (bs : List ℕ) (a : ℕ) → a < addr → (store m addr bs).1.read a ≡ m.read a
unfolding store
store-below m addr [] a lt = refl
store-below m addr (b ∷ bs) a lt = elim (Bool-cases (m.writable addr)) [
  | inr stuck ↦ rw stuck refl
  | inl fine ↦
      let miss : (a == addr) ≡ false = ground arith in
      rw fine (store-below (poke m addr b) (suc addr) bs a (omega arith) ∙ rw miss refl)
]

store-outside :
    (m : Memory) (addr : ℕ) (bs : List ℕ) (a : ℕ)
    → ((a < addr) ⊎ (addr + length bs ≤ a))
    → (store m addr bs).1.read a ≡ m.read a
unfolding store
store-outside m addr [] a h = refl
store-outside m addr (b ∷ bs) a h = elim (Bool-cases (m.writable addr)) [
  | inr stuck ↦ rw stuck refl
  | inl fine ↦
      let miss : (a == addr) ≡ false = ground arith in
      let rest : (a < suc addr) ⊎ (suc addr + length bs ≤ a) = ground arith in
      rw fine (store-outside (poke m addr b) (suc addr) bs a rest ∙ rw miss refl)
]

pub load-step :
    (m : Memory) (addr b n : ℕ) (bs : List ℕ)
    → m.read addr ≡ some b
    → load m (suc addr) n ≡ some bs
    → load m addr (suc n) ≡ some (b ∷ bs)
unfolding load
load-step m addr b n bs first rest = rw (load, first, rest) refl

load-store :
    (m : Memory) (addr : ℕ) (bs : List ℕ)
    → (store m addr bs).0 ≡ true
    → load (store m addr bs).1 addr (length bs) ≡ some bs
unfolding store load
load-store m addr [] h = refl
load-store m addr (b ∷ bs) h = elim (Bool-cases (m.writable addr)) [
  | inr stuck ↦ absurd (ground arith)
  | inl fine ↦
      let done : (store (poke m addr b) (suc addr) bs).0 ≡ true = simp fine at h in
      let same : (addr == addr) ≡ true = ==_refl addr in
      let first : (store (poke m addr b) (suc addr) bs).1.read addr ≡ some b =
        store-below (poke m addr b) (suc addr) bs addr (omega arith) ∙ rw same refl in
      rw fine (
        load-step (store (poke m addr b) (suc addr) bs).1 addr b (length bs) bs first
          (load-store (poke m addr b) (suc addr) bs done))
]

pub io_check-ok :
    (addr size : ℕ)
    → region_is_user addr size ≡ true
    → user_io_check addr size ≡ ok (user_vm_end - addr + 1)
unfolding user_io_check
io_check-ok addr size h = rw (user_io_check, h) refl

io_check-err :
    (addr size : ℕ) → region_is_user addr size ≡ false → user_io_check addr size ≡ err efault
unfolding user_io_check
io_check-err addr size h = rw (user_io_check, h) refl

pub copyin-ok :
    (m : Memory) (ubuf size : ℕ) (bs : List ℕ)
    → region_is_user ubuf size ≡ true
    → load m ubuf size ≡ some bs
    → copyin m ubuf size ≡ ok bs
unfolding copyin
copyin-ok m ubuf size bs inside bytes = rw (copyin, io_check-ok ubuf size inside, bytes) refl

-- What a successful `copyout` wrote, `copyin` from the same place returns.
pub copyin-copyout :
    (m : Memory) (ubuf : ℕ) (bs : List ℕ)
    → (copyout m ubuf bs).0 ≡ none
    → copyin (copyout m ubuf bs).1 ubuf (length bs) ≡ ok bs
unfolding copyin copyout
copyin-copyout m ubuf bs h = elim (Bool-cases (region_is_user ubuf (length bs))) [
  | inr outside ↦
      let failed : (copyout m ubuf bs).0 ≡ some efault =
        rw (copyout, io_check-err ubuf (length bs) outside) refl in
      cc
  | inl inside ↦
      let check = io_check-ok ubuf (length bs) inside in
      elim (Bool-cases ((store m ubuf bs).0)) [
        | inl done ↦
            let memory : (copyout m ubuf bs).1 ≡ (store m ubuf bs).1 = rw (copyout, check) refl in
            copyin-ok (copyout m ubuf bs).1 ubuf (length bs) bs inside
              (ap (λ w. load w ubuf (length bs)) memory ∙ load-store m ubuf bs done)
        | inr stuck ↦
            let failed : (copyout m ubuf bs).0 ≡ some efault = rw (copyout, check, stuck) refl in cc
      ]
]

-- `copyout` to a region that is not wholly user memory fails with EFAULT and writes nothing.
pub copyout-outside :
    (m : Memory) (ubuf : ℕ) (bs : List ℕ)
    → region_is_user ubuf (length bs) ≡ false
    → copyout m ubuf bs ≡ (some efault, m)
unfolding copyout
copyout-outside m ubuf bs h = rw (copyout, io_check-err ubuf (length bs) h) refl

-- Every byte that a `copyout` changes, whether it succeeds or faults halfway, lies in the region that
-- it was given.
pub copyout-inside :
    (m : Memory) (ubuf : ℕ) (bs : List ℕ) (a : ℕ)
    → ((a < ubuf) ⊎ (ubuf + length bs ≤ a))
    → (copyout m ubuf bs).1.read a ≡ m.read a
unfolding copyout
copyout-inside m ubuf bs a h = elim (Bool-cases (region_is_user ubuf (length bs))) [
  | inr outside ↦ rw (copyout, io_check-err ubuf (length bs) outside) refl
  | inl inside ↦ rw (copyout, io_check-ok ubuf (length bs) inside) (store-outside m ubuf bs a h)
]

-- `copyout_atomic` of one, two or four bytes either writes them all, as `copyout` does, or returns EFAULT
-- and writes nothing; it panics on no such size.
pub copyout_atomic-whole :
    (m : Memory) (ubuf : ℕ) (bs : List ℕ)
    → atomic_size (length bs) ≡ true
    → copyout_atomic m ubuf bs
      ≡ some (
          if region_is_user ubuf (length bs) && (store m ubuf bs).0
          then (none, (copyout m ubuf bs).1)
          else (some efault, m))
unfolding copyout_atomic copyout
copyout_atomic-whole m ubuf bs size = elim (Bool-cases (region_is_user ubuf (length bs))) [
  | inr outside ↦
      let left : copyout_atomic m ubuf bs ≡ some (some efault, m) =
        rw (copyout_atomic, io_check-err ubuf (length bs) outside) refl in
      left ∙ rw outside refl
  | inl inside ↦
      let check = io_check-ok ubuf (length bs) inside in
      let memory : (copyout m ubuf bs).1 ≡ (store m ubuf bs).1 = rw (copyout, check) refl in
      elim (Bool-cases ((store m ubuf bs).0)) [
        | inl done ↦
            let left : copyout_atomic m ubuf bs ≡ some (none, (store m ubuf bs).1) =
              rw (copyout_atomic, check, size, done) refl in
            left ∙ rw (inside, done) (ap (λ w. some (none, w)) (sym memory))
        | inr stuck ↦
            let left : copyout_atomic m ubuf bs ≡ some (some efault, m) =
              rw (copyout_atomic, check, size, stuck) refl in
            left ∙ rw (inside, stuck) refl
      ]
]
