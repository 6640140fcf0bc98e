-- ===== src/ReadRetry/Run/Policy.antt =====
-- When a read is repeated, and what a run prints.
use mathlib.Core.Option.{some-injective}
use yuelink_ci.Prelude.{
  ℕ, suc, ◌+◌, ◌≤◌, ◌≡◌, ◌≢◌, refl, subst, ◌⊎◌, inl, inr, String, true, List, [], ◌∷◌, All, some,
  length, nat_eq, arith,
}
use yuelink_ci.Prelude.Result.{Result, ok}
use yuelink_ci.Prelude.Int.{ℤ, pos, int_eq}
use yuelink_ci.ReadRetry.Execute.{Bytes, Exit}
use yuelink_ci.ReadRetry.Retryable.{retryable}
use yuelink_ci.ReadRetry.Run.{attempt_time, Effect, executed, wrote_stdout, Outcome, returns}

-- A command that was run: when, for how long at most, and with what result.
pub record Execution : Type 0 where
  pub command : List String
  pub started : ℕ
  pub timeout : ℕ
  pub exit : Exit

unfoldable pub executions : List Effect → List Execution
executions [] = []
executions (executed command started timeout exit ∷ es) =
    record { command = command; started = started; timeout = timeout; exit = exit } ∷ executions es
executions (e ∷ es) = executions es

unfoldable pub printed : List Effect → List Bytes
printed [] = []
printed (wrote_stdout out ∷ es) = out ∷ printed es
printed (e ∷ es) = printed es

-- Each command but the last failed with 1 and a diagnostic of the transport.
abbrev pub AreRepeated : (List ℕ → List ℕ) → List Execution → Type 0
AreRepeated decode [] = Unit
AreRepeated decode (x ∷ []) = Unit
AreRepeated decode (x ∷ y ∷ xs) =
    (x.exit.code ≡ pos 1) × (retryable decode x.exit.stderr ≡ true) × AreRepeated decode (y ∷ xs)

-- The last command succeeded, and its output is what was printed.
abbrev pub LastPrinted : List Bytes → List Execution → Type 0
LastPrinted out [] = ⊥
LastPrinted out (x ∷ []) = (x.exit.code ≡ pos 0) × (out ≡ x.exit.stdout ∷ [])
LastPrinted out (x ∷ y ∷ xs) = LastPrinted out (y ∷ xs)

-- The commands of a run, with what it printed and its status.
pub record IsPolicy (decode : List ℕ → List ℕ) (left deadline : ℕ) (xs : List Execution)
    (out : List Bytes) (status : Result ℤ) : Type 0 where
  pub few : length xs ≤ left
  pub timely : All (λ x. (x.timeout ≤ attempt_time) × (x.started + x.timeout ≤ deadline)) xs
  pub repeated : AreRepeated decode xs
  pub succeeded : status ≡ ok (pos 0) → LastPrinted out xs
  pub silent : status ≢ ok (pos 0) → out ≡ []

module _ (decode : List ℕ → List ℕ) (deadline : ℕ) where
  abbrev pub Sound : ℕ → Outcome → Type 0
  Sound left o = IsPolicy decode left deadline (executions o.effects) (printed o.effects) o.status

  -- A run that ends with no command.
  pub stopped-Sound :
      (left : ℕ) (status : Result ℤ)
      → status ≢ ok (pos 0)
      → Sound left (record { effects = []; status = status })
  unfolding executions printed
  stopped-Sound left status fails = record {
    few = omega arith;
    timely = tt;
    repeated = tt;
    succeeded = λ e. absurd (fails e);
    silent = λ n. refl;
  }

  pub returns-Sound :
      (left : ℕ) (status : Result ℤ) (o : Outcome)
      → status ≢ ok (pos 0)
      → returns status ≡ some o
      → Sound left o
  returns-Sound left status o fails h =
      subst (Sound left) (some-injective _ _ h) (stopped-Sound left status fails)

module _ (decode : List ℕ → List ℕ) (left deadline : ℕ) (x : Execution) where
  pub last-IsPolicy :
      (out : List Bytes) (status : Result ℤ)
      → (x.timeout ≤ attempt_time) × (x.started + x.timeout ≤ deadline)
      → x.exit.code ≡ pos 0
      → (status ≡ ok (pos 0)) × (out ≡ x.exit.stdout ∷ []) ⊎ (status ≢ ok (pos 0)) × (out ≡ [])
      → IsPolicy decode (suc left) deadline (x ∷ []) out status
  last-IsPolicy out status timely good (inl (zero', shown)) = record {
    few = omega arith;
    timely = (timely, tt);
    repeated = tt;
    succeeded = λ e. (good, shown);
    silent = λ n. absurd (n zero');
  }
  last-IsPolicy out status timely good (inr (fails, quiet)) = record {
    few = omega arith;
    timely = (timely, tt);
    repeated = tt;
    succeeded = λ e. absurd (fails e);
    silent = λ n. quiet;
  }

  pub failed-IsPolicy :
      (status : Result ℤ)
      → (x.timeout ≤ attempt_time) × (x.started + x.timeout ≤ deadline)
      → status ≢ ok (pos 0)
      → IsPolicy decode (suc left) deadline (x ∷ []) [] status
  failed-IsPolicy status timely fails = record {
    few = omega arith;
    timely = (timely, tt);
    repeated = tt;
    succeeded = λ e. absurd (fails e);
    silent = λ n. refl;
  }

  pub more-IsPolicy :
      (xs : List Execution) (out : List Bytes) (status : Result ℤ)
      → (x.timeout ≤ attempt_time) × (x.started + x.timeout ≤ deadline)
      → x.exit.code ≡ pos 1
      → retryable decode x.exit.stderr ≡ true
      → IsPolicy decode left deadline xs out status
      → IsPolicy decode (suc left) deadline (x ∷ xs) out status
  more-IsPolicy [] out status timely one transport rest = record {
    few = omega arith;
    timely = (timely, tt);
    repeated = tt;
    succeeded = λ e. absurd (rest.succeeded e);
    silent = rest.silent;
  }
  more-IsPolicy (y ∷ xs) out status timely one transport rest = record {
    few = omega (arith, rest.few);
    timely = (timely, rest.timely);
    repeated = (one, transport, rest.repeated);
    succeeded = rest.succeeded;
    silent = rest.silent;
  }
