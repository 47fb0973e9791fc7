-- ===== src/User/Tests.antt =====
-- kern/user.c on user memory that holds a short string.
use elos.Base.{◌+◌, ◌-◌, ◌≡◌, refl, some, none, [], ◌∷◌, min, ltb, ◌==◌, if◌then◌else◌, ◌&&◌}
use elos.Base.Errno.{ok, err, enametoolong}
use elos.User.{Memory, region_is_user, copyin, copyout, copyinstr, user_vm_end}
use elos.User.Copy.{copyin-copyout}
use elos.User.Strings.{Scanned, copyinstr-Scanned}

-- the bytes 72, 105, 0 at 8192, and no others
abbrev memory : Memory
memory = record {
  read = λ a.
      if a == 8192
      then some 72
      else if a == 8193
      then some 105
      else if a == 8194
      then some 0
      else none;
  writable = λ a. ltb 4095 a && ltb a 16384;
}

greeting : copyinstr memory 8192 10 ≡ ok (72 ∷ 105 ∷ [])
unfolding copyinstr
greeting = refl

too_long : copyinstr memory 8192 2 ≡ err enametoolong
unfolding copyinstr
too_long = refl

copyin-copyout_example :
    copyin (copyout memory 8192 (1 ∷ 2 ∷ 3 ∷ [])).1 8192 3 ≡ ok (1 ∷ 2 ∷ 3 ∷ [])
unfolding copyout
copyin-copyout_example = copyin-copyout memory 8192 (1 ∷ 2 ∷ 3 ∷ []) refl

copyinstr-Scanned_example :
    Scanned memory (min 10 (user_vm_end - 8192 + 1)) 8192 0 10 (copyinstr memory 8192 10)
unfolding region_is_user
copyinstr-Scanned_example = copyinstr-Scanned memory 8192 10 refl
