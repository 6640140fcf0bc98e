-- ===== src/ReadRetry/Run/Loop.antt =====
-- The loop of `run` keeps to the policy.
use mathlib.Core.Option.{some-injective}
use yuelink_ci.Prelude.{
  ℕ, zero, suc, ◌+◌, ◌-◌, ◌≤◌, min, ◌≡◌, ◌≢◌, refl, sym, not, ◌||◌, ◌⊎◌, inl, inr, String, true,
  false, List, [], ◌∷◌, ◌++◌, Option, none, some, leb, ◌==◌, nat_eq, Bool-cases, arith, ==→eq,
}
use yuelink_ci.Prelude.Result.{Result, ok, err}
use yuelink_ci.Prelude.Int.{ℤ, pos, negsuc, int_eq}
use yuelink_ci.ReadRetry.{Status}
use yuelink_ci.ReadRetry.Execute.{Bytes, Process, Exit}
use yuelink_ci.ReadRetry.Retryable.{retryable}
use yuelink_ci.ReadRetry.Run.{
  attempts, seconds, attempt_time, Round, Effect, executed, wrote_stderr, slept, Outcome, after,
  replace_target, command_for, finish, failure_status, on_exit, on_executed, on_process,
  on_temporary, on_attempt, loop,
}
use yuelink_ci.ReadRetry.Run.Policy.{
  Execution, executions, printed, Sound, returns-Sound, last-IsPolicy, failed-IsPolicy,
  more-IsPolicy,
}

ok-ne : {c : ℤ} → c ≢ pos 0 → ok c ≢ ok (pos 0)
ok-ne h e = h (cc)

failure_status-ne : (code : ℤ) → failure_status code ≢ pos 0
failure_status-ne (pos zero) h = ground arith
failure_status-ne (pos (suc n)) h = ground arith
failure_status-ne (negsuc n) h = ground arith

pub after-some :
    (es : List Effect) (q : Option Outcome) (o : Outcome)
    → after es q ≡ some o
    → (r : Outcome) × (q ≡ some r) × (o.effects ≡ es ++ r.effects) × (o.status ≡ r.status)
unfolding after
after-some es none o h = cc
after-some es (some r) o h = (r, refl, ground arith, ground arith)

-- How a success ends: it prints, or the destination was not as it was.
finish-cases :
    (r : Round) (target : Option (String × Status)) (temporary : String) (exit : Exit) (o : Outcome)
    → finish r target temporary exit ≡ some o
    → (executions o.effects ≡ [])
      × ((o.status ≡ ok (pos 0)) × (printed o.effects ≡ exit.stdout ∷ [])
          ⊎ (o.status ≢ ok (pos 0)) × (printed o.effects ≡ []))
unfolding finish after executions printed
finish-cases r none temporary exit o h = ground arith
finish-cases r (some (path, before)) temporary exit o h = by_replace (replace_target r before) refl
  where
    by_replace :
        (q : Result (Unit {0}))
        → replace_target r before ≡ q
        → (executions o.effects ≡ [])
          × ((o.status ≡ ok (pos 0)) × (printed o.effects ≡ exit.stdout ∷ [])
              ⊎ (o.status ≢ ok (pos 0)) × (printed o.effects ≡ []))
    by_replace (err e) q = ground arith
    by_replace (ok done) q = ground arith

module _ (decode : List ℕ → List ℕ) (rounds : ℕ → Round) (argv : List String)
    (target : Option (String × Status)) (deadline : ℕ) where
  -- What follows a command.
  pub data Follows (again : Option Outcome) (exit : Exit) : Outcome → Type 0 where
    ended :
        (o : Outcome)
        → exit.code ≡ pos 0
        → executions o.effects ≡ []
        → (o.status ≡ ok (pos 0)) × (printed o.effects ≡ exit.stdout ∷ [])
          ⊎ (o.status ≢ ok (pos 0)) × (printed o.effects ≡ [])
        → Follows again exit o
    stopped : (o : Outcome) → o.effects ≡ [] → o.status ≢ ok (pos 0) → Follows again exit o
    retried :
        (o r : Outcome) (n : ℕ)
        → exit.code ≡ pos 1
        → retryable decode exit.stderr ≡ true
        → again ≡ some r
        → o.effects ≡ slept n ∷ r.effects
        → o.status ≡ r.status
        → Follows again exit o

  stopped_at :
      (again : Option Outcome) (attempt : ℕ) (temporary : String) (exit : Exit) (o : Outcome)
      → (exit.code == pos 0) ≡ false
      → (not (exit.code == pos 1) || not (retryable decode exit.stderr) || attempt == attempts)
        ≡ true
      → on_exit decode rounds argv target deadline again attempt temporary exit ≡ some o
      → o ≡ record { effects = []; status = ok (failure_status exit.code) }
  unfolding on_exit
  stopped_at again attempt temporary exit o bad final h =
      sym (some-injective _ _ (rw (bad, final) at h))

  pub on_exit-Follows :
      (again : Option Outcome) (attempt : ℕ) (temporary : String) (exit : Exit) (o : Outcome)
      → on_exit decode rounds argv target deadline again attempt temporary exit ≡ some o
      → Follows again exit o
  unfolding on_exit
  on_exit-Follows again attempt temporary exit o h = elim (Bool-cases (exit.code == pos 0)) [
    | inl good ↦
        let (none_left, how) =
          finish-cases (rounds attempt) target temporary exit o (rw good at h) in
        ended o (==→eq _ _ good) none_left how
    | inr bad ↦
        elim (Bool-cases
          (not (exit.code == pos 1) || not (retryable decode exit.stderr) || attempt == attempts)) [
            | inl final ↦
                let same : o ≡ record { effects = []; status = ok (failure_status exit.code) } =
                  stopped_at again attempt temporary exit o bad final h in
                stopped o (rw same refl) (rw same (ok-ne (failure_status-ne exit.code)))
            | inr more ↦
                elim (Bool-cases (leb deadline ((rounds attempt).failed_at + seconds attempt))) [
                  | inl late ↦ stopped o (ground arith) (λ e. ground arith)
                  | inr early ↦
                      let (r, found, effects, status) =
                        after-some (slept attempt ∷ []) again o (rw (bad, more, early) at h) in
                      retried o r attempt (ground arith) (ground arith) found effects status
                ]
          ]
  ]

  -- A command, and what follows it.
  Follows-Sound :
      (left : ℕ) (again : Option Outcome) (x : Execution) (said : Bytes) (r o : Outcome)
      → ((r' : Outcome) → again ≡ some r' → Sound decode deadline left r')
      → (x.timeout ≤ attempt_time) × (x.started + x.timeout ≤ deadline)
      → Follows again x.exit r
      → o.effects ≡ executed x.command x.started x.timeout x.exit ∷ wrote_stderr said ∷ r.effects
      → o.status ≡ r.status
      → Sound decode deadline (suc left) o
  unfolding executions printed
  Follows-Sound left again x said r o sound timely (ended r' good no_more how) effects status =
      rw (effects, status, no_more)
        (last-IsPolicy decode left deadline x (printed r.effects) r.status timely good how)
  Follows-Sound left again x said r o sound timely (stopped r' none_left fails) effects status =
      rw (effects, status, none_left) (failed-IsPolicy decode left deadline x r.status timely fails)
  Follows-Sound left again x said r o sound timely
        (retried r' next n one transport found later same) effects status =
      rw (effects, status, later, same)
        (more-IsPolicy decode left deadline x (executions next.effects) (printed next.effects)
          next.status timely one transport (sound next found))

  module _ (left attempt : ℕ) (again : Option Outcome)
      (sound : (r : Outcome) → again ≡ some r → Sound decode deadline left r)
      (early : leb deadline (rounds attempt).started ≡ false) where
    on_executed-Sound :
        (temporary : String) (q : Option Exit) (o : Outcome)
        → on_executed decode rounds argv target deadline again attempt temporary
            (min attempt_time (deadline - (rounds attempt).started))
            q
          ≡ some o
        → Sound decode deadline (suc left) o
    unfolding on_executed
    on_executed-Sound temporary none o h = cc
    on_executed-Sound temporary (some exit) o h =
        let started = (rounds attempt).started in
        let timeout = min attempt_time (deadline - started) in
        let command = command_for argv target temporary in
        let x : Execution = record {
          command = command;
          started = started;
          timeout = timeout;
          exit = exit;
        } in
        let (r, found, effects, status) =
          after-some (executed command started timeout exit ∷ wrote_stderr exit.stderr ∷ [])
            (on_exit decode rounds argv target deadline again attempt temporary exit) o h in
        Follows-Sound left again x exit.stderr r o sound (ground arith)
          (on_exit-Follows again attempt temporary exit r found) effects status

    on_process-Sound :
        (temporary : String) (q : Result Process) (o : Outcome)
        → on_process decode rounds argv target deadline again attempt temporary q ≡ some o
        → Sound decode deadline (suc left) o
    unfolding on_process
    on_process-Sound temporary (err e) o h =
        returns-Sound decode deadline (suc left) (err e) o (λ q. ground arith) h
    on_process-Sound temporary (ok process) o h = on_executed-Sound temporary _ o h

    on_temporary-Sound :
        (q : Result String) (o : Outcome)
        → on_temporary decode rounds argv target deadline again attempt q ≡ some o
        → Sound decode deadline (suc left) o
    unfolding on_temporary
    on_temporary-Sound (err e) o h =
        returns-Sound decode deadline (suc left) (err e) o (λ q. ground arith) h
    on_temporary-Sound (ok temporary) o h = on_process-Sound temporary _ o h

  -- The loop never runs past the deadline and repeats only failures of the transport.
  pub loop-Sound :
      (left attempt : ℕ) (o : Outcome)
      → loop decode rounds argv target deadline left attempt ≡ some o
      → Sound decode deadline left o
  unfolding loop on_attempt
  loop-Sound zero attempt o h =
      returns-Sound decode deadline zero (ok (pos 1)) o (λ e. ground arith) h
  loop-Sound (suc left) attempt o h =
      let again = loop decode rounds argv target deadline left (suc attempt) in
      elim (Bool-cases (leb deadline (rounds attempt).started)) [
        | inl late ↦
            returns-Sound decode deadline (suc left) (ok (pos 124)) o (λ e. ground arith)
              (rw late at h)
        | inr early ↦
            on_temporary-Sound left attempt again (loop-Sound left (suc attempt)) early _ o
              (rw early at h)
      ]
