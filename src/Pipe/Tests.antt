-- ===== src/Pipe/Tests.antt =====
-- kern/pipe.c with the standard files open.
use elos.Base.{ℕ, ◌≡◌, refl, none, some, List, [], ◌∷◌, ◌==◌, if◌then◌else◌, ltb, arith, inr}
use elos.Base.Errno.{efault, err, enomem}
use elos.Fd.{Files, freg}
use elos.Pipe.{Pipes, pipe_alloc, sys_pipe2}
use elos.Pipe.Paths.{Given, sys_pipe2_fails}
use elos.Pipe.Success.{Opens, sys_pipe2-Opens}

abbrev std_files : Files
std_files = record {
  table = λ i. if ltb i 3 then 8 else 0;
  ref = λ f. if f == 8 then 3 else 0;
  type = λ f. freg;
  flags = λ f. 2;
  closed = [];
}

abbrev no_pipes : Pipes
no_pipes = record { files = std_files; priv = λ f. 0; pipes = λ a. none; freed = [] }

abbrev storage : List ℕ
storage = 0 ∷ 0 ∷ []

two_files : Given 4096 64 128
two_files = record {
  live = omega arith;
  live0 = omega arith;
  apart = omega arith;
  even0 = refl;
  even1 = refl;
}

sys_pipe2-Opens_example : Opens 4096 64 128 no_pipes (sys_pipe2 storage 4096 64 128 none 0 no_pipes)
sys_pipe2-Opens_example =
    sys_pipe2-Opens storage 4096 64 128 0 no_pipes two_files 3 4 (omega arith) (omega arith)
      (omega arith) (omega arith) refl refl

sys_pipe2_fails_example : sys_pipe2 storage 4096 64 128 (some efault) 0 no_pipes ≡ none
sys_pipe2_fails_example =
    sys_pipe2_fails storage 4096 64 128 0 no_pipes two_files (some efault)
      (inr (inr (efault, refl)))

no_memory : sys_pipe2 storage 0 64 128 none 0 no_pipes ≡ some (err enomem, no_pipes)
unfolding sys_pipe2 pipe_alloc
no_memory = refl
