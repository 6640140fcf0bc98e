-- ===== src/ReadRetry/Run/Commands.antt =====
-- Which commands the loop of `run` executes.
use yuelink_ci.Prelude.{
  ℕ, zero, suc, ◌≡◌, refl, inl, inr, String, List, [], ◌∷◌, All, Option, none, some, leb,
  Bool-cases, arith,
}
use yuelink_ci.Prelude.Result.{Result, ok, err}
use yuelink_ci.Prelude.Int.{ℤ, pos}
use yuelink_ci.ReadRetry.{Status}
use yuelink_ci.ReadRetry.Execute.{Bytes, Process, Exit}
use yuelink_ci.ReadRetry.Run.{
  Round, executed, wrote_stderr, Outcome, returns, command_for, on_exit, on_executed, on_process,
  on_temporary, on_attempt, loop,
}
use yuelink_ci.ReadRetry.Run.Policy.{Execution, executions}
use yuelink_ci.ReadRetry.Run.Loop.{after-some, Follows, ended, stopped, retried, on_exit-Follows}

module _ (decode : List ℕ → List ℕ) (rounds : ℕ → Round) (argv : List String)
    (target : Option (String × Status)) (deadline : ℕ) where
  -- The command is the one that is given, for the temporary directory of some round.
  abbrev pub IsOfRound : Execution → Type 0
  IsOfRound x =
      (attempt : ℕ) × (temporary : String) × ((rounds attempt).temporary ≡ ok temporary)
      × (x.command ≡ command_for argv target temporary)

  abbrev AreOfRounds : Outcome → Type 0
  AreOfRounds o = All IsOfRound (executions o.effects)

  nothing-AreOfRounds : (status : Result ℤ) (o : Outcome) → returns status ≡ some o → AreOfRounds o
  unfolding executions
  nothing-AreOfRounds status o h =
      let empty : executions o.effects ≡ [] = ground arith in rw empty tt

  Follows-AreOfRounds :
      (again : Option Outcome) (x : Execution) (said : Bytes) (r o : Outcome)
      → ((r' : Outcome) → again ≡ some r' → AreOfRounds r')
      → IsOfRound x
      → Follows decode rounds argv target deadline again x.exit r
      → o.effects ≡ executed x.command x.started x.timeout x.exit ∷ wrote_stderr said ∷ r.effects
      → AreOfRounds o
  unfolding executions
  Follows-AreOfRounds again x said r o ih of_round (ended r' good no_more how) effects =
      rw (effects, no_more) (of_round, tt)
  Follows-AreOfRounds again x said r o ih of_round (stopped r' none_left fails) effects =
      rw (effects, none_left) (of_round, tt)
  Follows-AreOfRounds again x said r o ih of_round
        (retried r' next n one transport found later same) effects =
      rw (effects, later) (of_round, ih next found)

  module _ (attempt : ℕ) (again : Option Outcome)
      (ih : (r : Outcome) → again ≡ some r → AreOfRounds r) where
    on_executed-AreOfRounds :
        (temporary : String) (timeout : ℕ) (q : Option Exit) (o : Outcome)
        → (rounds attempt).temporary ≡ ok temporary
        → on_executed decode rounds argv target deadline again attempt temporary timeout q ≡ some o
        → AreOfRounds o
    unfolding on_executed
    on_executed-AreOfRounds temporary timeout none o e h = cc
    on_executed-AreOfRounds temporary timeout (some exit) o e h =
        let started = (rounds attempt).started in
        let command = command_for argv target temporary in
        let x : Execution = record {
          command = command;
          started = started;
          timeout = timeout;
          exit = exit;
        } in
        let (r, found, effects, status) =
          after-some (executed command started timeout exit ∷ wrote_stderr exit.stderr ∷ [])
            (on_exit decode rounds argv target deadline again attempt temporary exit) o h in
        Follows-AreOfRounds again x exit.stderr r o ih (attempt, temporary, e, refl)
          (on_exit-Follows decode rounds argv target deadline again attempt temporary exit r found)
          effects

    on_process-AreOfRounds :
        (temporary : String) (q : Result Process) (o : Outcome)
        → (rounds attempt).temporary ≡ ok temporary
        → on_process decode rounds argv target deadline again attempt temporary q ≡ some o
        → AreOfRounds o
    unfolding on_process
    on_process-AreOfRounds temporary (err x) o e h = nothing-AreOfRounds (err x) o h
    on_process-AreOfRounds temporary (ok process) o e h =
        on_executed-AreOfRounds temporary _ _ o e h

    on_temporary-AreOfRounds :
        (q : Result String) (o : Outcome)
        → (rounds attempt).temporary ≡ q
        → on_temporary decode rounds argv target deadline again attempt q ≡ some o
        → AreOfRounds o
    unfolding on_temporary
    on_temporary-AreOfRounds (err x) o e h = nothing-AreOfRounds (err x) o h
    on_temporary-AreOfRounds (ok temporary) o e h = on_process-AreOfRounds temporary _ o e h

  pub loop-AreOfRounds :
      (left attempt : ℕ) (o : Outcome)
      → loop decode rounds argv target deadline left attempt ≡ some o
      → AreOfRounds o
  unfolding loop on_attempt
  loop-AreOfRounds zero attempt o h = nothing-AreOfRounds (ok (pos 1)) o h
  loop-AreOfRounds (suc left) attempt o h =
      let again = loop decode rounds argv target deadline left (suc attempt) in
      elim (Bool-cases (leb deadline (rounds attempt).started)) [
        | inl late ↦ nothing-AreOfRounds (ok (pos 124)) o (rw late at h)
        | inr early ↦
            on_temporary-AreOfRounds attempt again (loop-AreOfRounds left (suc attempt)) _ o refl
              (rw early at h)
      ]
