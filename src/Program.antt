-- ===== src/Program.antt =====
-- cmd/crawler/main.go: the modes of the program, and how it ends.
use bytefetch.Prelude.{ℕ, Text, codes, same, Bool, Option, none, some, List, [], ◌∷◌, if◌then◌else◌}
use bytefetch.Exec.{Error}
use bytefetch.Config.{Config, enabled_for, interval_for}

-- A goroutine that `main` starts; `cleanup` has its interval.
pub data Service : Type 0 where
  api worker : Service
  cleanup : ℕ → Service

abbrev pub cleanup_in : Config → Text → List Service
cleanup_in cfg mode =
    if enabled_for cfg.cleanup mode then cleanup (interval_for cfg.cleanup mode) ∷ [] else []

-- The `switch` over the mode; `none` where the mode is unknown.
unfoldable pub services : Config → Text → Option (List Service)
services cfg mode =
    if same mode (codes "api")
    then some (api ∷ cleanup_in cfg mode)
    else if same mode (codes "worker")
    then some (worker ∷ cleanup_in cfg mode)
    else if same mode (codes "all")
    then some (api ∷ worker ∷ cleanup_in cfg mode)
    else none

-- What ends the wait: the context is done, or a service returns, with its error where it has one.
pub data Ending : Type 0 where
  signalled : Ending
  returned : Option Error → Ending

-- `waitOrExit`: the exit code.
unfoldable pub wait_or_exit : Ending → ℕ
wait_or_exit signalled = 0
wait_or_exit (returned none) = 0
wait_or_exit (returned (some e)) = 1

abbrev pub run_services : Option (List Service) → Ending → List Service × ℕ
run_services none ending = ([], 1)
run_services (some started) ending = (started, wait_or_exit ending)

abbrev pub run_migrated : Bool → Config → Text → Ending → List Service × ℕ
run_migrated migrated cfg mode ending =
    if migrated then run_services (services cfg mode) ending else ([], 1)

-- `main`: the services that it starts and its exit code, given what `Load` returns, whether the
-- migrations run, and what ends the wait.
unfoldable pub run : Option Config → Bool → Text → Ending → List Service × ℕ
run none migrated mode ending = ([], 1)
run (some cfg) migrated mode ending = run_migrated migrated cfg mode ending
