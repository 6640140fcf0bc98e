-- ===== src/Manifest/Canonical/Literals.antt =====
-- The texts of strings and integers in a canonical document, and documents without floats.
use yuelink_ci.Prelude.{
  ℕ, ◌≡◌, String, true, false, ◌||◌, List, [], ◌∷◌, ◌++◌, codes, is_digit, ◌==◌, nat_eq,
}
use yuelink_ci.Prelude.Int.{ℤ}
use yuelink_ci.Json.{
  Json, null, bool, int, float, str, arr, obj, Items, nil, cons, Fields, end, field,
}

-- What follows a number does not go on with it.
abbrev pub Ends : List ℕ → Type 0
Ends [] = Unit
Ends (c ∷ cs) = is_digit c ≡ false

-- `json.dumps` of a text begins with a quotation mark and ends with the next one that is not escaped,
-- and `str` of an integer is its digits behind an optional sign; each is read back in one way.
pub record AreLiterals (dumps : String → String) (show : ℤ → String) : Type 0 where
  pub text_start : (s : String) → (rest : List ℕ) × (codes (dumps s) ≡ b'"' ∷ rest)
  pub text_end :
      (s t : String) (x y : List ℕ)
      → codes (dumps s) ++ x ≡ codes (dumps t) ++ y
      → (s ≡ t) × (x ≡ y)
  pub number_start :
      (n : ℤ)
      → (c : ℕ) × (rest : List ℕ) × (codes (show n) ≡ c ∷ rest) × ((c == b'-' || is_digit c) ≡ true)
  pub number_end :
      (m n : ℤ) (x y : List ℕ)
      → Ends x
      → Ends y
      → codes (show m) ++ x ≡ codes (show n) ++ y
      → (m ≡ n) × (x ≡ y)

-- No float in the document.
unfoldable mutual
  pub IsPlain : Json → Type 0
  IsPlain (arr vs) = ArePlain vs
  IsPlain (obj fs) = FieldsArePlain fs
  IsPlain (float x) = ⊥
  IsPlain null = Unit
  IsPlain (bool b) = Unit
  IsPlain (int n) = Unit
  IsPlain (str s) = Unit

  pub ArePlain : Items → Type 0
  ArePlain nil = Unit
  ArePlain (cons v vs) = IsPlain v × ArePlain vs

  pub FieldsArePlain : Fields → Type 0
  FieldsArePlain end = Unit
  FieldsArePlain (field k v fs) = IsPlain v × FieldsArePlain fs
