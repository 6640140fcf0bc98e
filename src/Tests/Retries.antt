-- ===== src/Tests/Retries.antt =====
-- A read that fails once in the transport and then succeeds, for `run` of scripts/gh-read-retry.py.
use yuelink_ci.Prelude.{
  ℕ, ◌≡◌, ◌≢◌, refl, inl, inr, String, false, true, List, [], ◌∷◌, some, none, codes, arith,
  if◌then◌else◌,
}
use yuelink_ci.Prelude.{
  ◌==◌, string_eq, nat_eq, list_eq, strip_prefix, starts_with, is_word_of, is_hex_of_length,
}
use yuelink_ci.Prelude.{◌↔◌, Bool-cases, ◌+◌, subst, ◌-◌, min}
use yuelink_ci.Prelude.Result.{ok, err, os_error}
use yuelink_ci.Prelude.Int.{ℤ, pos, int_eq}
use yuelink_ci.Regex.{
  fold_case, is_space, rests_many, rests_one, strip_folded, flat_map, rests, full_match,
  search_match,
}
use yuelink_ci.Regex.Matches.{Denotes, Occurs}
use yuelink_ci.ReadRetry.{
  FileSystem, is_endpoint, is_run_id, is_attestation_name, arg, check_api, is_download,
  has_certificate_flags, is_verify, destination, step, validate,
}
use yuelink_ci.ReadRetry.Retryable.{rejection, transport_failure, retryable, retryable_iff}
use yuelink_ci.ReadRetry.Execute.{
  output_limit, Reading, Process, max_of, poll, collect, exit_of, execute,
}
use yuelink_ci.ReadRetry.Execute.Bounded.{Reaches, IsResult, execute-IsResult}
use yuelink_ci.ReadRetry.Run.{
  seconds, attempt_time, total_time, Round, executed, wrote_stderr, wrote_stdout, slept, Outcome,
  after, command_for, finish, on_exit, on_executed, on_process, on_temporary, on_attempt, loop,
  original, run_with, run_validated, run,
}
use yuelink_ci.ReadRetry.Run.Whole.{IsRun, run-IsRun}
use yuelink_ci.ReadRetry.Run.Ends.{Ticks, run-ne-none}

abbrev no_files : FileSystem
no_files = record { lstat = λ p. err (os_error "ENOENT"); has_entries = λ p. ok false }

abbrev same : List ℕ → List ℕ
same cs = cs

abbrev argv : List String
argv = "gh" ∷ "api" ∷ "repos/onesyue/yuelink/releases" ∷ []

abbrev reset : List ℕ
reset = codes "Get \"https://api.github.com/x\": read tcp 1.2.3.4: read: connection reset by peer\n"

abbrev running : ℕ → Reading
running now = record { exited = none; now = now; out_size = 0; err_size = 0 }

abbrev ended : ℤ → ℕ → Reading
ended code now = record { exited = some code; now = now; out_size = 2; err_size = 0 }

-- A process that fails after a second, and one that succeeds.
abbrev failing : Process
failing = record {
  started = seconds 1;
  readings = running (seconds 1) ∷ ended (pos 1) (seconds 2) ∷ running (seconds 400) ∷ [];
  out = [];
  err = reset;
}

abbrev passing : Process
passing = record {
  started = seconds 4;
  readings = ended (pos 0) (seconds 5) ∷ running (seconds 400) ∷ [];
  out = codes "[]";
  err = [];
}

abbrev rounds : ℕ → Round
rounds n = record {
  started = if n == 1 then seconds 1 else seconds 4;
  temporary = ok "/tmp/gh-release-read-0";
  process = ok (if n == 1 then failing else passing);
  current = err (os_error "ENOENT");
  has_entries = ok false;
  replaced = ok tt;
  failed_at = seconds 3;
}

abbrev outcome : Outcome
outcome = record {
  effects =
      executed argv (seconds 1) (seconds 60) (record { code = pos 1; stdout = []; stderr = reset })
      ∷ wrote_stderr reset
      ∷ slept 1
      ∷ executed argv (seconds 4) (seconds 60)
          (record { code = pos 0; stdout = codes "[]"; stderr = [] })
      ∷ wrote_stderr []
      ∷ wrote_stdout (codes "[]")
      ∷ [];
  status = ok (pos 0);
}

retryable_lem : retryable same reset ≡ true
unfolding retryable rejection transport_failure search_match full_match rests rests_many rests_one
    strip_folded flat_map fold_case is_space strip_prefix nat_eq
retryable_lem = refl

retryable_iff_example :
    (retryable same reset ≡ true) ↔ ¬ Occurs rejection reset × Denotes transport_failure reset
retryable_iff_example = retryable_iff same reset

execute_lem :
    execute failing (seconds 60) ≡ some (record { code = pos 1; stdout = []; stderr = reset })
unfolding execute exit_of poll collect max_of output_limit
execute_lem = refl

execute-IsResult_example : IsResult failing (record { code = pos 1; stdout = []; stderr = reset })
execute-IsResult_example = execute-IsResult failing (seconds 60) _ execute_lem

run_lem : run same no_files rounds (seconds 1) argv ≡ some outcome
unfolding run run_validated run_with original loop on_attempt on_temporary on_process on_executed
    on_exit finish command_for after attempt_time total_time execute exit_of poll collect max_of
    output_limit retryable rejection transport_failure search_match full_match rests rests_many
    rests_one strip_folded flat_map fold_case is_space strip_prefix nat_eq int_eq string_eq list_eq
    validate step check_api is_download has_certificate_flags is_verify arg is_endpoint is_run_id
    is_attestation_name destination starts_with is_word_of is_hex_of_length
run_lem = refl

run-IsRun_example : IsRun same no_files rounds (seconds 1) argv outcome
run-IsRun_example = run-IsRun same no_files rounds (seconds 1) argv outcome run_lem

abbrev InTime : ℕ → Process → Type 0
InTime n p =
    Reaches (p.started + min attempt_time (seconds 1 + total_time - (rounds n).started)) p.readings

ticking : Ticks rounds (seconds 1 + total_time)
unfolding attempt_time
ticking n p e = elim (Bool-cases (n == 1)) [
  | inl first ↦
      let same_process : failing ≡ p = ground arith in
      subst (InTime n) same_process (inr (inr (inl (omega arith))))
  | inr later ↦
      let same_process : passing ≡ p = ground arith in
      subst (InTime n) same_process (inr (inl (omega arith)))
]

run-ne-none_example : run same no_files rounds (seconds 1) argv ≢ none
run-ne-none_example = run-ne-none same no_files rounds (seconds 1) argv ticking
