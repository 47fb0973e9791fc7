-- ===== src/Proc/Waits.antt =====
-- `sys_wait4` of kern/proc.c without WUNTRACED and WCONTINUED, against a search for the first zombie.
use elos.Base.{ℕ, ◌+◌, Bool, false, ◌&&◌, ◌||◌, Option, none, some, List, [], ◌∷◌, if◌then◌else◌}
use elos.Proc.{
  Procs, Target, matches, Scanned, reaps, passes, Round, echild, nothing, sleeps, reaped, proc_reap,
  w_exitcode,
}

-- the first zombie that is waited for, and whether there is any child that is
abbrev pub first_zombie : Target → (p : ℕ) → Procs → List ℕ → Option ℕ
first_zombie target p s [] = none
first_zombie target p s (c ∷ cs) =
    let rest = first_zombie target p s cs in
    if matches target p c s && s.zombie c then some c else rest

abbrev pub any_match : Target → (p : ℕ) → Procs → List ℕ → Bool
any_match target p s [] = false
any_match target p s (c ∷ cs) = let rest = any_match target p s cs in matches target p c s || rest

-- what a round of `sys_wait4` should come to
abbrev pub waits : (nohang : Bool) → Target → (p : ℕ) → Procs → Option ℕ → Round
waits nohang target p s (some c) =
    reaped c (w_exitcode (s.exit_code c) (s.exit_sig c)) (proc_reap p c s)
waits nohang target p s none =
    if any_match target p s (s.children p)
    then (if nohang then nothing s else sleeps s)
    else echild s

abbrev scanned : Procs → (n : ℕ) → (matched : ℕ) → Option ℕ → Scanned
scanned s n matched (some c) = reaps c s
scanned s n matched none = passes (n + matched) s

abbrev matched : Target → (p : ℕ) → Procs → List ℕ → ℕ
matched target p s [] = 0
matched target p s (c ∷ cs) = (if matches target p c s then 1 else 0) + matched target p s cs
