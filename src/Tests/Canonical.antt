-- ===== src/Tests/Canonical.antt =====
-- Manifests over a library that prints each text and each integer in one way.
use Prim.Native.Char.{Char}
use text.Mathlib.TextEquality.{Char-path}
use yuelink_ci.Prelude.{
  ℕ, zero, suc, ◌≡◌, refl, sym, ap, ◌∙◌, String, true, false, ◌||◌, List, [], ◌∷◌, ◌++◌, codes,
  is_digit, arith, none, some, ◌==◌, list_eq, string_eq, nat_eq, if◌then◌else◌,
}
use yuelink_ci.Prelude.Int.{ℤ, pos, negsuc}
use yuelink_ci.Prelude.Result.{Result, ok, value_or}
use yuelink_ci.Json.Unique.{hook, reject_duplicate_keys}
use yuelink_ci.Json.{Json, null, int, str, obj, Fields, get}
use yuelink_ci.Manifest.{Library, Bytes, current_key_id, current_public_key_b64}
use yuelink_ci.Manifest.Canonical.{canonical_json, insert_member, sort_members, join, codes_leb}
use yuelink_ci.Manifest.Canonical.Normal.{normal_member}
use yuelink_ci.Manifest.Canonical.Binding.{signed_bytes-injective}
use yuelink_ci.Manifest.Verify.{
  without, remove_prefix, signed_bytes, check_signature, verify_signed_manifest,
}
use yuelink_ci.Tests.Data.{object, members}
use yuelink_ci.Tests.Manifests.{zeros}
use yuelink_ci.Tests.Policies
use yuelink_ci.Manifest.Canonical.Literals.{AreLiterals}

-- Each character behind a backslash.
abbrev escaped : String → String
escaped String.[] = "\""
escaped (String.◌∷◌ c s) = String.◌∷◌ "\\" (String.◌∷◌ c (escaped s))

abbrev dumps : String → String
dumps s = String.◌∷◌ "\"" (escaped s)

-- As many ones, and a zero.
abbrev unary : ℕ → String
unary zero = "0"
unary (suc n) = String.◌∷◌ "1" (unary n)

abbrev show : ℤ → String
show (pos n) = unary n
show (negsuc n) = String.◌∷◌ "-" (unary n)

String-path : (c d : Char) (s t : String) → c ≡ d → s ≡ t → String.◌∷◌ c s ≡ String.◌∷◌ d t
String-path c d s t h k = cc

escaped-end :
    (s t : String) (x y : List ℕ)
    → codes (escaped s) ++ x ≡ codes (escaped t) ++ y
    → (s ≡ t) × (x ≡ y)
escaped-end String.[] String.[] x y h = (refl, cc)
escaped-end String.[] (String.◌∷◌ d t) x y h = absurd (ground (arith, h))
escaped-end (String.◌∷◌ c s) String.[] x y h = absurd (ground (arith, h))
escaped-end (String.◌∷◌ c s) (String.◌∷◌ d t) x y h =
    let (same, rest) = escaped-end s t x y (cc) in
    (String-path c d s t (Char-path c d (cc)) same, rest)

unary-end :
    (m n : ℕ) (x y : List ℕ) → codes (unary m) ++ x ≡ codes (unary n) ++ y → (m ≡ n) × (x ≡ y)
unary-end zero zero x y h = (refl, cc)
unary-end zero (suc n) x y h = absurd (ground (arith, h))
unary-end (suc m) zero x y h = absurd (ground (arith, h))
unary-end (suc m) (suc n) x y h = let (same, rest) = unary-end m n x y (cc) in (ap suc same, rest)

show-start :
    (n : ℤ)
    → (c : ℕ) × (rest : List ℕ) × (codes (show n) ≡ c ∷ rest) × ((c == b'-' || is_digit c) ≡ true)
unfolding nat_eq
show-start (pos zero) = (b'0', [], refl, refl)
show-start (pos (suc n)) = (b'1', codes (unary n), refl, refl)
show-start (negsuc n) = (b'-', codes (unary n), refl, refl)

unary-ne-minus : (m : ℕ) (x y : List ℕ) → codes (unary m) ++ x ≡ b'-' ∷ y → ⊥
unary-ne-minus zero x y h = ground (arith, h)
unary-ne-minus (suc m) x y h = ground (arith, h)

show-end : (m n : ℤ) (x y : List ℕ) → codes (show m) ++ x ≡ codes (show n) ++ y → (m ≡ n) × (x ≡ y)
show-end (pos m) (pos n) x y h = let (same, rest) = unary-end m n x y h in (ap pos same, rest)
show-end (pos m) (negsuc n) x y h = absurd (unary-ne-minus m x _ h)
show-end (negsuc m) (pos n) x y h = absurd (unary-ne-minus n y _ (sym h))
show-end (negsuc m) (negsuc n) x y h =
    let (same, rest) = unary-end m n x y (cc) in (ap negsuc same, rest)

dumps_and_show-AreLiterals : AreLiterals dumps show
dumps_and_show-AreLiterals = record {
  text_start = λ s. (codes (escaped s), refl);
  text_end = λ s t x y h. escaped-end s t x y (cc);
  number_start = show-start;
  number_end = λ m n x y e f h. show-end m n x y h;
}

codes-injective : (s t : String) → codes s ≡ codes t → s ≡ t
codes-injective String.[] String.[] h = refl
codes-injective String.[] (String.◌∷◌ d t) h = cc
codes-injective (String.◌∷◌ c s) String.[] h = cc
codes-injective (String.◌∷◌ c s) (String.◌∷◌ d t) h =
    String-path c d s t (Char-path c d (cc)) (codes-injective s t (cc))

-- The members of the head, with the version and the platforms that are given.
abbrev manifest : List (String × Json) → Fields
manifest platforms = members (
    ("version", str "1.2.3")
    ∷ ("keyId", str current_key_id)
    ∷ ("schemaVersion", int (pos 1))
    ∷ ("channel", null)
    ∷ ("publishedAt", null)
    ∷ ("expiresAt", null)
    ∷ ("releaseUrl", null)
    ∷ ("notes", null)
    ∷ ("platforms", object platforms)
    ∷ ("sig", str "ed25519:signature")
    ∷ [])

abbrev issued : Fields
issued = manifest (("ios", str "i") ∷ ("linux", str "l") ∷ [])

-- With the platforms in another order.
abbrev shipped : Fields
shipped = manifest (("linux", str "l") ∷ ("ios", str "i") ∷ [])

abbrev bytes_of : String → Result Bytes
bytes_of s = ok (codes s)

-- `openssl` accepts one message.
abbrev library_with : Fields → (Bytes → ℕ) → Library
library_with fields verdict = record {
  decode = λ raw. some "manifest";
  loads = λ text. some (obj fields);
  dumps = dumps;
  show = show;
  encode = bytes_of;
  b64decode = λ s. if s == current_public_key_b64 then some (zeros 32) else some (zeros 64);
  pkeyutl = λ key signature message. verdict message;
  strip = λ s. s;
  fromisoformat = λ s. none;
  float_equals = λ x n. false;
  policy = Policies.library;
}

abbrev signed : Bytes
signed = value_or [] (signed_bytes (library_with issued (λ message. 0)) issued)

abbrev verdict : Bytes → ℕ
verdict message = if message == signed then 0 else 1

abbrev library : Library
library = library_with shipped verdict

issued_lem : signed_bytes library issued ≡ ok signed
unfolding signed_bytes without canonical_json sort_members insert_member join codes_leb nat_eq
    string_eq
issued_lem = refl

shipped_lem : signed_bytes library shipped ≡ ok signed
unfolding signed_bytes without canonical_json sort_members insert_member join codes_leb nat_eq
    string_eq
shipped_lem = refl

verified : verify_signed_manifest library [] ≡ ok shipped
unfolding verify_signed_manifest check_signature signed_bytes without remove_prefix canonical_json
    sort_members insert_member join codes_leb hook reject_duplicate_keys string_eq nat_eq list_eq
    get
verified = refl

determined : (s t : String) (b : Bytes) → bytes_of s ≡ ok b → bytes_of t ≡ ok b → s ≡ t
determined s t b one two = codes-injective s t (ap (value_or b) one ∙ sym (ap (value_or b) two))

abbrev name : String
name = "platforms"

not_sig : (name == "sig") ≡ false
unfolding string_eq
not_sig = refl

signed_bytes-injective_example : normal_member (get name issued) ≡ normal_member (get name shipped)
signed_bytes-injective_example =
    signed_bytes-injective library issued shipped signed dumps_and_show-AreLiterals determined
      issued_lem shipped_lem name not_sig
