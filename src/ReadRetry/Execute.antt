-- ===== src/ReadRetry/Execute.antt =====
-- `execute`: a command that is stopped at its deadline or when it writes too much. The process is
-- what the loop sees of it, one reading for each round; `stop` is left out.
pub mod Bounded
use yuelink_ci.Prelude.{
  ℕ, suc, ◌+◌, String, List, [], ◌∷◌, Option, none, some, take, length, codes, ltb, leb, ◌||◌,
}
use yuelink_ci.Prelude.{if◌then◌else◌}
use yuelink_ci.Prelude.Int.{ℤ, pos}

abbrev pub Bytes : Type 0
Bytes = List ℕ

-- `OUTPUT_LIMIT`
unfoldable pub output_limit : ℕ
output_limit = 16777216

-- A round of the loop: `process.poll()`, the clock, and the sizes of the two files.
pub record Reading : Type 0 where
  pub exited : Option ℤ
  pub now : ℕ
  pub out_size : ℕ
  pub err_size : ℕ

-- `started` is the clock after the start; `out` and `err` are the files after the end.
pub record Process : Type 0 where
  pub started : ℕ
  pub readings : List Reading
  pub out : Bytes
  pub err : Bytes

pub record Exit : Type 0 where
  pub code : ℤ
  pub stdout : Bytes
  pub stderr : Bytes

-- How the loop ends.
pub data Ending : Type 0 where
  finished : ℤ → Ending
  timed_out too_large : Ending

unfoldable pub max_of : ℕ → ℕ → ℕ
max_of a b = if leb a b then b else a

-- `none` is that the process runs on past the readings.
unfoldable pub poll : ℕ → List Reading → Option Ending
unfolding max_of
poll deadline [] = none
poll deadline (r ∷ rs) = elim r.exited [
  | some code ↦ some (finished code)
  | none ↦
      let rest = poll deadline rs in
      if leb deadline r.now
      then some timed_out
      else if ltb output_limit (max_of r.out_size r.err_size)
      then some too_large
      else rest
]

abbrev pub deadline_message : Bytes
deadline_message = codes "release read deadline exceeded; not retrying\n"

abbrev pub limit_message : Bytes
limit_message = codes "release read output limit exceeded; not retrying\n"

-- What is read of the files is one byte more than the limit at most.
unfoldable pub collect : Process → ℤ → Exit
unfolding max_of
collect p code =
    let stdout = take (suc output_limit) p.out in
    let stderr = take (suc output_limit) p.err in
    if ltb output_limit (max_of (length stdout) (length stderr))
    then record { code = pos 125; stdout = []; stderr = limit_message }
    else record { code = code; stdout = stdout; stderr = stderr }

unfoldable pub exit_of : Process → Option Ending → Option Exit
exit_of p none = none
exit_of p (some timed_out) =
    some (record { code = pos 124; stdout = []; stderr = deadline_message })
exit_of p (some too_large) = some (record { code = pos 125; stdout = []; stderr = limit_message })
exit_of p (some (finished code)) = some (collect p code)

unfoldable pub execute : Process → ℕ → Option Exit
execute p timeout = exit_of p (poll (p.started + timeout) p.readings)
