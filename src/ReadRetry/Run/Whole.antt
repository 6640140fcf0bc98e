-- ===== src/ReadRetry/Run/Whole.antt =====
-- A whole run: of an approved command, within its policy, and to its end.
use yuelink_ci.Prelude.{
  ℕ, ◌+◌, ◌≡◌, ◌≢◌, refl, sym, ap, subst, ◌∙◌, ◌⊎◌, inl, inr, String, false, List, [], Option, none,
  some, All, All-weaken, take, ◌==◌, length, arith, string_eq, list_eq, nat_eq,
}
use yuelink_ci.Prelude.Result.{Result, ok, err, value_or, >>=-eq-ok}
use yuelink_ci.Prelude.Int.{ℤ, pos, int_eq}
use yuelink_ci.ReadRetry.{FileSystem, Status, validate}
use yuelink_ci.ReadRetry.Approved.{IsRead, validate-IsRead}
use yuelink_ci.ReadRetry.Private.{
  IsPrivate, IsDestined, download_to, download_words, validate-IsPrivate,
}
use yuelink_ci.ReadRetry.Run.{
  set_last, command_for, attempts, total_time, Round, Outcome, returns, original, run_with,
  run_validated, run,
}
use yuelink_ci.ReadRetry.Run.Policy.{Execution, executions, Sound, returns-Sound}
use yuelink_ci.ReadRetry.Run.Loop.{loop-Sound}
use yuelink_ci.ReadRetry.Run.Commands.{IsOfRound, loop-AreOfRounds}

module _ (decode : List ℕ → List ℕ) (files : FileSystem) (rounds : ℕ → Round) (now : ℕ) where
  -- The command that is executed is the one that was given and is no download, or it is the download
  -- that was given, with a temporary directory of a round in place of its destination.
  pub IsCommandOf : List String → Execution → Type 0
  IsCommandOf argv x =
      ((take 3 argv == download_words) ≡ false) × (x.command ≡ argv)
      ⊎ (run name directory temporary : String) × (attempt : ℕ) × (argv
          ≡ download_to run name directory)
        × IsPrivate files directory
        × ((rounds attempt).temporary ≡ ok temporary)
        × (x.command ≡ download_to run name temporary)

  -- A run keeps to the policy, and executes nothing but the given command, if it is approved.
  pub record IsRun (argv : List String) (o : Outcome) : Type 0 where
    pub policy : Sound decode (now + total_time) attempts o
    pub approved :
        (executions o.effects ≡ []) ⊎ IsRead argv × All (IsCommandOf argv) (executions o.effects)

  IsOfRound-IsCommandOf :
      (argv : List String) (approved : Option String) (target : Option (String × Status))
      (x : Execution)
      → IsDestined files argv approved
      → original files approved ≡ ok target
      → IsOfRound decode rounds argv target (now + total_time) x
      → IsCommandOf argv x
  unfolding IsDestined IsCommandOf command_for set_last original
  IsOfRound-IsCommandOf argv approved target x (inl (other, nothing)) h
        (attempt, temporary, made, command) =
      let none_left : original files none ≡ ok target =
        subst (λ a. original files a ≡ ok target) nothing h in
      let same : target ≡ none = sym (ap (value_or target) none_left) in
      inl (other, command ∙ ap (λ t. command_for argv t temporary) same)
  IsOfRound-IsCommandOf argv approved target x (inr (run, name, directory, shape, named, own)) h
        (attempt, temporary, made, command) =
      let some_left : original files (some directory) ≡ ok target =
        subst (λ a. original files a ≡ ok target) named h in
      let (status, found, same) = >>=-eq-ok (files.lstat directory) _ some_left in
      let target_same : target ≡ some (directory, status) = sym (ap (value_or target) same) in
      let last : x.command ≡ download_to run name temporary =
        command
        ∙ ap (λ t. command_for argv t temporary) target_same
        ∙ ap (λ l. set_last l temporary) shape in
      inr (run, name, directory, temporary, attempt, shape, own, made, last)

  refused-IsRun :
      (argv : List String) (status : Result ℤ) (o : Outcome)
      → status ≢ ok (pos 0)
      → returns status ≡ some o
      → IsRun argv o
  unfolding executions
  refused-IsRun argv status o fails h = record {
    policy = returns-Sound decode (now + total_time) attempts status o fails h;
    approved = inl (ground arith);
  }

  run_with-IsRun :
      (argv : List String) (approved : Option String) (target : Result (Option (String × Status)))
      (o : Outcome)
      → IsRead argv
      → IsDestined files argv approved
      → original files approved ≡ target
      → run_with decode files rounds now argv target ≡ some o
      → IsRun argv o
  unfolding run_with
  run_with-IsRun argv approved (err e) o read destined found h =
      refused-IsRun argv (err e) o (λ q. ground arith) h
  run_with-IsRun argv approved (ok target) o read destined found h = record {
    policy = loop-Sound decode rounds argv target (now + total_time) attempts 1 o h;
    approved = inr (
      read,
      All-weaken (executions o.effects)
          (λ x. IsOfRound-IsCommandOf argv approved target x destined found)
          (loop-AreOfRounds decode rounds argv target (now + total_time) attempts 1 o h),
    );
  }

  run_validated-IsRun :
      (argv : List String) (v : Option (Result (Option String))) (o : Outcome)
      → validate files (length argv + 2) argv ≡ v
      → run_validated decode files rounds now argv v ≡ some o
      → IsRun argv o
  unfolding run_validated run_with
  run_validated-IsRun argv none o e h = cc
  run_validated-IsRun argv (some (err x)) o e h = refused-IsRun argv (err x) o (λ q. ground arith) h
  run_validated-IsRun argv (some (ok target)) o e h =
      run_with-IsRun argv target (original files target) o
        (validate-IsRead files (length argv + 2) argv target e)
        (validate-IsPrivate files (length argv + 2) argv target e) refl h

  -- A run executes nothing but the command that was given, if that is an approved read, and in a
  -- download, whose destination is an empty private directory of the caller, a temporary directory
  -- stands in place of it. It does so three times at most, each for a minute at most and to
  -- the deadline at most, and again only after a failure with 1 and a diagnostic of the transport.
  -- With status 0 it prints the output of its last command, which succeeded; else it prints nothing.
  pub run-IsRun :
      (argv : List String) (o : Outcome) → run decode files rounds now argv ≡ some o → IsRun argv o
  unfolding run
  run-IsRun argv o h = run_validated-IsRun argv _ o refl h
