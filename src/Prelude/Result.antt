-- ===== src/Prelude/Result.antt =====
-- Exceptions as values: a call that may raise returns a `Result`.
use Prim.Native.String.{String}
use mathlib.Core.Path.{◌≡◌, refl}
use mathlib.Core.Bool.{Bool}
use yuelink_ci.Prelude.Equality.{if◌then◌else◌}

-- The exception classes that the source raises or that its operations raise by themselves.
-- `value_error` is `ValueError` and its subclasses, with the message's fixed part; `process_error` is
-- `subprocess.CalledProcessError`.
pub data Exception : Type 0 where
  value_error os_error runtime_error : String → Exception
  key_error type_error index_error attribute_error process_error zero_division_error : Exception

-- What a call gives: its exception, or the value that it returns.
pub data Result {ℓ} (A : Type ℓ) : Type ℓ where
  err : Exception → Result A
  ok : A → Result A

-- `if test: raise ValueError(message)`
abbrev pub raise_if : Bool → String → Result (Unit {0})
raise_if test message = if test then err (value_error message) else ok tt

-- The next statement, with the value of the one before it. An exception ends the block.
infixl 5 ◌>>=◌
abbrev pub ◌>>=◌ {κ ℓ} : {B : Type κ} {A : Type ℓ} → Result B → (B → Result A) → Result A
err raised >>= next = err raised
ok value >>= next = next value

-- The next statement after one that returns nothing.
infixl 5 ◌>>◌
abbrev pub ◌>>◌ {ℓ} : {A : Type ℓ} → Result (Unit {0}) → Result A → Result A
check >> next = check >>= λ done. next

-- If a block returned, its first statement returned, and so did the rest with that value.
pub >>=-eq-ok {κ ℓ} :
    {B : Type κ} {A : Type ℓ} (first : Result B) (next : B → Result A) {a : A}
    → (first >>= next) ≡ ok a
    → (value : B) × (first ≡ ok value) × (next value ≡ ok a)
>>=-eq-ok (err raised) next returned = cc
>>=-eq-ok (ok value) next returned = (value, refl, returned)

-- The value of a call that returned, for naming it in a proof.
abbrev pub value_or {ℓ} : {A : Type ℓ} → A → Result A → A
value_or missing (err raised) = missing
value_or missing (ok value) = value
