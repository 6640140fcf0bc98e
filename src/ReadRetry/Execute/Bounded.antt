-- ===== src/ReadRetry/Execute/Bounded.antt =====
-- What `execute` returns, and that it returns.
use mathlib.Core.Option.{some-injective}
use yuelink_ci.Prelude.{
  ℕ, zero, suc, ◌+◌, ◌≤◌, ◌≡◌, ◌≢◌, refl, ap, subst, ◌⊎◌, inl, inr, List, [], ◌∷◌, Option, none,
  some, take, length, arith, Bool-cases, false, ltb,
}
use yuelink_ci.Prelude.Int.{ℤ, pos}
use yuelink_ci.ReadRetry.Execute.{
  output_limit, Reading, Process, Exit, Ending, finished, timed_out, too_large, max_of, poll,
  deadline_message, limit_message, collect, exit_of, execute,
}

-- Some reading is at or after the deadline.
abbrev pub Reaches : ℕ → List Reading → Type 0
Reaches deadline [] = ⊥
Reaches deadline (r ∷ rs) = (deadline ≤ r.now) ⊎ Reaches deadline rs

-- Some reading saw the process exit with the status.
abbrev pub Exited : ℤ → List Reading → Type 0
Exited code [] = ⊥
Exited code (r ∷ rs) = (r.exited ≡ some code) ⊎ Exited code rs

poll-ne-none : (deadline : ℕ) (rs : List Reading) → Reaches deadline rs → poll deadline rs ≢ none
unfolding poll
poll-ne-none deadline [] h = elim h [ ]
poll-ne-none deadline (r ∷ rs) (inl late) = λ e. ground arith
poll-ne-none deadline (r ∷ rs) (inr h) = λ e. ground (arith, poll-ne-none deadline rs h)

poll-Exited :
    (deadline : ℕ) (rs : List Reading) (code : ℤ)
    → poll deadline rs ≡ some (finished code)
    → Exited code rs
unfolding poll
poll-Exited deadline [] code h = cc
poll-Exited deadline (r ∷ rs) code h = by_exit r.exited refl (λ k. poll-Exited deadline rs code k)
  where
    by_exit :
        (e : Option ℤ)
        → r.exited ≡ e
        → (poll deadline rs ≡ some (finished code) → Exited code rs)
        → Exited code (r ∷ rs)
    by_exit (some c) e ih = inl (ground arith)
    by_exit none e ih = inr (ih (ground arith))

take-whole : (n : ℕ) (xs : List ℕ) → length (take (suc n) xs) ≤ n → take (suc n) xs ≡ xs
take-whole n [] h = refl
take-whole zero (x ∷ xs) h = absurd (omega arith)
take-whole (suc n) (x ∷ xs) h = ap (λ l. x ∷ l) (take-whole n xs (omega arith))

-- The result of a process: it is within the limit, and a status other than those of the two refusals
-- is one that the process exited with, the outputs being then the whole files.
pub record IsResult (p : Process) (e : Exit) : Type 0 where
  pub out_bounded : length e.stdout ≤ output_limit
  pub err_bounded : length e.stderr ≤ output_limit
  pub genuine :
      e.code ≢ pos 124
      → e.code ≢ pos 125
      → Exited e.code p.readings × (e.stdout ≡ p.out) × (e.stderr ≡ p.err)

messages_fit : (length deadline_message ≤ output_limit) × (length limit_message ≤ output_limit)
unfolding output_limit
messages_fit = omega arith

late-IsResult :
    (p : Process) → IsResult p (record { code = pos 124; stdout = []; stderr = deadline_message })
late-IsResult p = record {
  out_bounded = omega arith;
  err_bounded = messages_fit.0;
  genuine = λ a b. absurd (a refl);
}

large-IsResult :
    (p : Process) → IsResult p (record { code = pos 125; stdout = []; stderr = limit_message })
large-IsResult p = record {
  out_bounded = omega arith;
  err_bounded = messages_fit.1;
  genuine = λ a b. absurd (b refl);
}

max_of_bound : (a b n : ℕ) → ltb n (max_of a b) ≡ false → (a ≤ n) × (b ≤ n)
unfolding max_of
max_of_bound a b n h = ground arith

collect-IsResult : (p : Process) (code : ℤ) → Exited code p.readings → IsResult p (collect p code)
unfolding collect
collect-IsResult p code seen =
    let a = length (take (suc output_limit) p.out) in
    let b = length (take (suc output_limit) p.err) in
    elim (Bool-cases (ltb output_limit (max_of a b))) [
      | inl large ↦ rw large (large-IsResult p)
      | inr fits ↦
          let (out, err) = max_of_bound a b output_limit fits in
          rw fits (record {
            out_bounded = out;
            err_bounded = err;
            genuine =
                λ n m. (seen, take-whole output_limit p.out out, take-whole output_limit p.err err);
          })
    ]

exit_of-IsResult :
    (p : Process) (o : Option Ending) (e : Exit)
    → ((code : ℤ) → o ≡ some (finished code) → Exited code p.readings)
    → exit_of p o ≡ some e
    → IsResult p e
unfolding exit_of
exit_of-IsResult p none e seen h = cc
exit_of-IsResult p (some timed_out) e seen h =
    subst (IsResult p) (some-injective _ _ h) (late-IsResult p)
exit_of-IsResult p (some too_large) e seen h =
    subst (IsResult p) (some-injective _ _ h) (large-IsResult p)
exit_of-IsResult p (some (finished code)) e seen h =
    subst (IsResult p) (some-injective _ _ h) (collect-IsResult p code (seen code refl))

-- What `execute` returns is a result of the process: its outputs are within the limit, and a status
-- other than 124 and 125 is one that the process exited with, its outputs being the whole files.
pub execute-IsResult :
    (p : Process) (timeout : ℕ) (e : Exit) → execute p timeout ≡ some e → IsResult p e
unfolding execute
execute-IsResult p timeout e h =
    let deadline = p.started + timeout in
    exit_of-IsResult p (poll deadline p.readings) e (poll-Exited deadline p.readings) h

-- A process that runs on is stopped: `execute` returns if some reading of the clock is at or after
-- the deadline.
pub execute-ne-none :
    (p : Process) (timeout : ℕ)
    → Reaches (p.started + timeout) p.readings
    → execute p timeout ≢ none
unfolding execute exit_of
execute-ne-none p timeout late =
    λ h. ground (arith, poll-ne-none (p.started + timeout) p.readings late)
