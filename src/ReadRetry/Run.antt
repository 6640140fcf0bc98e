-- ===== src/ReadRetry/Run.antt =====
-- `run`: a read is repeated after a failure of the transport, three times at most and not past a
-- deadline. Instants are microseconds.
pub mod Policy
pub mod Loop
pub mod Commands
pub mod Whole
pub mod Ends
use yuelink_ci.Prelude.{
  ℕ, zero, suc, ◌+◌, ◌-◌, ◌*◌, min, String, Bool, true, false, not, ◌||◌, List, [], ◌∷◌, ◌++◌,
}
use yuelink_ci.Prelude.{Option, none, some, length, leb, ltb, ◌==◌, nat_eq, if◌then◌else◌}
use yuelink_ci.Prelude.Result.{Result, ok, err, value_error, os_error, ◌>>=◌, ◌>>◌, raise_if}
use yuelink_ci.Prelude.Int.{ℤ, pos, int_eq, leb_ℤ}
use yuelink_ci.ReadRetry.{FileSystem, Status, validate}
use yuelink_ci.ReadRetry.Execute.{Bytes, Process, Exit, execute}
use yuelink_ci.ReadRetry.Retryable.{retryable}

-- `ATTEMPTS`
abbrev pub attempts : ℕ
attempts = 3

abbrev pub seconds : ℕ → ℕ
seconds n = n * 1000000

-- `ATTEMPT_SECONDS`
unfoldable pub attempt_time : ℕ
attempt_time = seconds 60

-- `TOTAL_SECONDS`
unfoldable pub total_time : ℕ
total_time = seconds 150

-- What one round of the loop gets from the system: the clock at its start and after its command, the
-- temporary directory, the process, and the target after a success.
pub record Round : Type 0 where
  pub started : ℕ
  pub temporary : Result String
  pub process : Result Process
  pub current : Result Status
  pub has_entries : Result Bool
  pub replaced : Result (Unit {0})
  pub failed_at : ℕ

pub data Effect : Type 0 where
  executed : (command : List String) (started timeout : ℕ) (exit : Exit) → Effect
  wrote_stderr wrote_stdout : Bytes → Effect
  moved : (temporary target : String) → Effect
  slept : ℕ → Effect

-- The effects of a run, and its status or its exception.
pub record Outcome : Type 0 where
  pub effects : List Effect
  pub status : Result ℤ

abbrev pub returns : Result ℤ → Option Outcome
returns status = some (record { effects = []; status = status })

unfoldable pub after : List Effect → Option Outcome → Option Outcome
after done none = none
after done (some o) = some (record { effects = done ++ o.effects; status = o.status })

-- `command[-1] = last`
unfoldable pub set_last : List String → String → List String
set_last [] last = []
set_last (a ∷ []) last = last ∷ []
set_last (a ∷ b ∷ argv) last = a ∷ set_last (b ∷ argv) last

unfoldable pub command_for : List String → Option (String × Status) → String → List String
command_for argv none temporary = argv
command_for argv (some target) temporary = set_last argv temporary

-- The tests of the target after a download, and its replacement.
unfoldable pub replace_target : Round → Status → Result (Unit {0})
unfolding nat_eq
replace_target r original = do
  current ← r.current
  raise_if
      (not (current.device == original.device)
        || not (current.inode == original.inode)
        || not current.is_directory)
      "proof destination changed during download"
  busy ← r.has_entries
  raise_if busy "proof destination changed during download"
  r.replaced

unfoldable pub finish : Round → Option (String × Status) → String → Exit → Option Outcome
finish r none temporary exit = after (wrote_stdout exit.stdout ∷ []) (returns (ok (pos 0)))
finish r (some (path, original)) temporary exit = elim (replace_target r original) [
  | err e ↦ returns (err e)
  | ok done ↦ after (moved temporary path ∷ wrote_stdout exit.stdout ∷ []) (returns (ok (pos 0)))
]

-- `code if code > 0 else 1`
abbrev pub failure_status : ℤ → ℤ
failure_status code = if leb_ℤ code (pos 0) then pos 1 else code

module _ (decode : List ℕ → List ℕ) (rounds : ℕ → Round) (argv : List String)
    (target : Option (String × Status)) (deadline : ℕ) where
  -- After a command: `again` is the rest of the loop.
  unfoldable pub on_exit : Option Outcome → ℕ → String → Exit → Option Outcome
  on_exit again attempt temporary exit =
      if exit.code == pos 0
      then finish (rounds attempt) target temporary exit
      else if not (exit.code == pos 1) || not (retryable decode exit.stderr) || attempt == attempts
      then returns (ok (failure_status exit.code))
      else if leb deadline ((rounds attempt).failed_at + seconds attempt)
      then returns (ok (pos 124))
      else after (slept attempt ∷ []) again

  unfoldable pub on_executed : Option Outcome → ℕ → String → ℕ → Option Exit → Option Outcome
  on_executed again attempt temporary timeout none = none
  on_executed again attempt temporary timeout (some exit) =
      after
        (executed (command_for argv target temporary) (rounds attempt).started timeout exit
          ∷ wrote_stderr exit.stderr
          ∷ [])
        (on_exit again attempt temporary exit)

  unfoldable pub on_process : Option Outcome → ℕ → String → Result Process → Option Outcome
  on_process again attempt temporary (err e) = returns (err e)
  on_process again attempt temporary (ok process) =
      let timeout = min attempt_time (deadline - (rounds attempt).started) in
      on_executed again attempt temporary timeout (execute process timeout)

  unfoldable pub on_temporary : Option Outcome → ℕ → Result String → Option Outcome
  on_temporary again attempt (err e) = returns (err e)
  on_temporary again attempt (ok temporary) =
      on_process again attempt temporary (rounds attempt).process

  -- The body of the loop.
  unfoldable pub on_attempt : Option Outcome → ℕ → Option Outcome
  on_attempt again attempt =
      if leb deadline (rounds attempt).started
      then returns (ok (pos 124))
      else on_temporary again attempt (rounds attempt).temporary

  -- The loop, with the attempts left and the number of the next one.
  unfoldable pub loop : ℕ → ℕ → Option Outcome
  loop zero attempt = returns (ok (pos 1))
  loop (suc left) attempt = on_attempt (loop left (suc attempt)) attempt

-- `target.lstat()` of a target that there is.
unfoldable pub original : FileSystem → Option String → Result (Option (String × Status))
original files none = ok none
original files (some path) = files.lstat path >>= λ status. ok (some (path, status))

module _ (decode : List ℕ → List ℕ) (files : FileSystem) (rounds : ℕ → Round) (now : ℕ) where
  unfoldable pub run_with : List String → Result (Option (String × Status)) → Option Outcome
  run_with argv (err e) = returns (err e)
  run_with argv (ok target) = loop decode rounds argv target (now + total_time) attempts 1

  unfoldable pub run_validated : List String → Option (Result (Option String)) → Option Outcome
  run_validated argv none = none
  run_validated argv (some validated) = run_with argv (validated >>= original files)

  -- `now` is the clock after the target was read.
  unfoldable pub run : List String → Option Outcome
  run argv = run_validated argv (validate files (length argv + 2) argv)

-- The status of the process: the two exceptions that the script catches give 2, others 1.
unfoldable pub exit_status : Result ℤ → ℤ
exit_status (ok code) = code
exit_status (err (value_error m)) = pos 2
exit_status (err (os_error m)) = pos 2
exit_status (err e) = pos 1
