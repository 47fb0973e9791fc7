-- ===== src/User.antt =====
-- kern/user.c: copies between kernel and user memory, on a machine with 32-bit addresses. User memory
-- gives each address its byte, or `none` where reading faults, and says where writing faults. A copy
-- that faults has moved the bytes before the fault. What a failed `copyin` leaves in the kernel's
-- buffer is not modelled.
pub mod Copy
pub mod Strings
mod Tests
use elos.Base.{
  ℕ, zero, suc, ◌+◌, ◌-◌, ◌*◌, ◌/◌, ◌%◌, ◌^◌, min, Bool, true, false, ◌&&◌, ◌||◌, Option, none,
  some, List, [], ◌∷◌, not, if◌then◌else◌, ltb, leb, ◌==◌, length, replicate, take,
}
use elos.Base.Errno.{Errno, Result, ok, err, efault, enametoolong, enomem}

pub record Memory : Type 0 where
  pub read : ℕ → Option ℕ
  pub writable : ℕ → Bool

abbrev pub user_vm_start : ℕ
user_vm_start = 4096

abbrev pub user_vm_end : ℕ
user_vm_end = 3221225471

-- `VM_IS_USER`
abbrev pub is_user : ℕ → Bool
is_user addr = leb user_vm_start addr && leb addr user_vm_end

-- `VM_REGION_IS_USER`
unfoldable pub region_is_user : (addr size : ℕ) → Bool
region_is_user addr size = is_user addr && ((size == 0) || leb (size - 1) (user_vm_end - addr))

-- `user_io_check`: the error or, for a size of 0, the number of bytes up to the end
unfoldable pub user_io_check : (addr size : ℕ) → Result ℕ
unfolding region_is_user
user_io_check addr size =
    if not (region_is_user addr size) then err efault else ok (user_vm_end - addr + 1)

-- `memcpy` from user memory under `mayfault`
unfoldable pub load : Memory → (addr size : ℕ) → Option (List ℕ)
load m addr zero = some []
load m addr (suc n) =
    let rest = load m (suc addr) n in
    elim (m.read addr) [
      | none ↦ none
      | some b ↦ elim rest [ none ↦ none | some bs ↦ some (b ∷ bs) ]
    ]

abbrev pub poke : Memory → (addr byte : ℕ) → Memory
poke m addr b = record m { read = λ a. if a == addr then some b else m.read a }

-- `memcpy` to user memory under `mayfault`: whether it succeeded, and the memory
unfoldable pub store : Memory → (addr : ℕ) → List ℕ → Bool × Memory
store m addr [] = (true, m)
store m addr (b ∷ bs) =
    let rest = store (poke m addr b) (suc addr) bs in if m.writable addr then rest else (false, m)

unfoldable pub copyin : Memory → (ubuf size : ℕ) → Result (List ℕ)
unfolding load user_io_check
copyin m ubuf size = elim (user_io_check ubuf size) [
  | err e ↦ err e
  | ok _ ↦ elim (load m ubuf size) [ none ↦ err efault | some bs ↦ ok bs ]
]

-- the error, `none` for 0, and the memory
unfoldable pub copyout : Memory → (ubuf : ℕ) → List ℕ → Option Errno × Memory
unfolding store user_io_check
copyout m ubuf bs =
    let (done, m') = store m ubuf bs in
    elim (user_io_check ubuf (length bs)) [
      | err e ↦ (some e, m)
      | ok _ ↦ (if done then none else some efault, m')
    ]

unfoldable pub umemset : Memory → (buf c len : ℕ) → Option Errno × Memory
unfolding store user_io_check
umemset m buf c len =
    let (done, m') = store m buf (replicate len (c % 256)) in
    elim (user_io_check buf len) [
      | err e ↦ (some e, m)
      | ok _ ↦ (if done then none else some efault, m')
    ]

-- `rubyte`
unfoldable pub rubyte : Memory → ℕ → Result ℕ
rubyte m u = elim (m.read u) [ none ↦ err efault | some b ↦ ok b ]

-- The loop of `copyinstr`, with `n` for `maxlen`, and what follows it: the bytes before the
-- terminator, whose number is `*out`.
unfoldable pub copyinstr_loop : Memory → (n str len bufsz : ℕ) → Result (List ℕ)
unfolding rubyte
copyinstr_loop m zero str len bufsz = if leb bufsz len then err enametoolong else err efault
copyinstr_loop m (suc n) str len bufsz =
    let rest = copyinstr_loop m n (suc str) (len + 1) bufsz in
    elim (rubyte m str) [
      | err e ↦ err e
      | ok b ↦
          let more : Result (List ℕ) = elim rest [ err e ↦ err e | ok bs ↦ ok (b ∷ bs) ] in
          if b == 0 then ok [] else more
    ]

unfoldable pub copyinstr : Memory → (str bufsz : ℕ) → Result (List ℕ)
unfolding copyinstr_loop user_io_check
copyinstr m str bufsz = elim (user_io_check str 0) [
  | err e ↦ err e
  | ok maxlen ↦ copyinstr_loop m (min bufsz maxlen) str 0 bufsz
]

abbrev pub path_max : ℕ
path_max = 4096

-- `copyin_path`: `allocated` says whether `kmalloc` returned a buffer
unfoldable pub copyin_path : Memory → (allocated : Bool) → (ustr : ℕ) → Result (List ℕ)
unfolding copyinstr
copyin_path m allocated ustr = if allocated then copyinstr m ustr path_max else err enomem

-- `atomic_loadn` and `atomic_storen` panic at other sizes
abbrev pub atomic_size : ℕ → Bool
atomic_size size = (size == 1) || (size == 2) || (size == 4)

-- `copyin_atomic`; `none` for the panic
unfoldable pub copyin_atomic : Memory → (ubuf size : ℕ) → Option (Result (List ℕ))
unfolding load user_io_check
copyin_atomic m ubuf size = elim (user_io_check ubuf size) [
  | err e ↦ some (err e)
  | ok _ ↦
      if atomic_size size
      then some (elim (load m ubuf size) [ none ↦ err efault | some bs ↦ ok bs ])
      else none
]

-- `copyout_atomic`, whose one store faults as a whole
unfoldable pub copyout_atomic : Memory → (ubuf : ℕ) → List ℕ → Option (Option Errno × Memory)
unfolding store user_io_check
copyout_atomic m ubuf bs =
    let (done, m') = store m ubuf bs in
    elim (user_io_check ubuf (length bs)) [
      | err e ↦ some (some e, m)
      | ok _ ↦
          if atomic_size (length bs)
          then some (if done then (none, m') else (some efault, m))
          else none
    ]
