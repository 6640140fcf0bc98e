-- ===== src/Manifest/Checks.antt =====
-- `_utc_timestamp`, the digest tests, the evidence bundle and one platform's asset, as
-- `_validate_manifest_policy` checks them.
use yuelink_ci.Prelude.{ℕ, ◌<>◌, String, Bool, true, false, not, ◌&&◌, ◌||◌, List, [], ◌∷◌, Option}
use yuelink_ci.Prelude.{none, some, all, any, contains, leb, length, codes, is_digit, split}
use yuelink_ci.Prelude.{is_hex_of_length, ◌==◌, string_eq, nat_eq, if◌then◌else◌}
use Prim.Native.Char.{code}
use yuelink_ci.Prelude.Result.{Result, ok, err, value_error, key_error, ◌>>◌, raise_if}
use yuelink_ci.Prelude.Int.{pos}
use yuelink_ci.Json.{Json, str, int, float, obj, Fields, get, keys, has_exact_keys}
use yuelink_ci.Manifest.{Library, asset_host}

-- `raw[:-1]`, if the text ends in "Z".
unfoldable pub strip_z : String → Option String
unfolding nat_eq
strip_z String.[] = none
strip_z (String.◌∷◌ c String.[]) = if code c == b'Z' then some "" else none
strip_z (String.◌∷◌ c (String.◌∷◌ d s)) = elim (strip_z (String.◌∷◌ d s)) [
  | none ↦ none
  | some t ↦ some (String.◌∷◌ c t)
]

-- A canonical lower-case digest of n characters.
unfoldable pub is_digest : ℕ → Option Json → Bool
is_digest n (some (str s)) = is_hex_of_length n s
is_digest n v = false

abbrev pub evidence_keys : List String
evidence_keys = "sourceCommit" ∷ "sha256SumsSha256" ∷ "promotionEvidence" ∷ []

abbrev pub promotion_keys : List String
promotion_keys =
    "schemaVersion" ∷ "candidateSha256" ∷ "sha256SumsSha256" ∷ "payloadBundleSha256"
    ∷ "payloadCount" ∷ []

-- `a == b` of two values of which both are texts.
abbrev pub same_text : Option Json → Option Json → Bool
same_text (some (str s)) (some (str t)) = s == t
same_text v w = false

module _ (lib : Library) where
  abbrev in_utc : Option (ℕ × Bool) → Result ℕ
  in_utc none = err (value_error "timestamp is not valid")
  in_utc (some (t, true)) = ok t
  in_utc (some (t, false)) = err (value_error "timestamp must use UTC")

  -- The zone is written in full in place of "Z".
  abbrev of_iso : Option String → Result ℕ
  of_iso none = err (value_error "timestamp must be an ISO-8601 UTC timestamp")
  of_iso (some s) = in_utc (lib.fromisoformat (s <> "+00:00"))

  unfoldable pub utc_timestamp : Option Json → Result ℕ
  utc_timestamp (some (str s)) = of_iso (strip_z s)
  utc_timestamp v = err (value_error "timestamp must be an ISO-8601 UTC timestamp")

  -- `value == n and not isinstance(value, bool)`
  abbrev pub equals_number : ℕ → Option Json → Bool
  equals_number n (some (int (pos k))) = k == n
  equals_number n (some (float x)) = lib.float_equals x n
  equals_number n v = false

  -- A text that is not blank.
  abbrev pub is_filled : Option Json → Bool
  is_filled (some (str s)) = not (lib.strip s == "")
  is_filled v = false

  unfoldable pub check_promotion : Option Json → Option Json → Result (Unit {0})
  check_promotion (some (obj fs)) sums = do
    raise_if (not (has_exact_keys fs promotion_keys))
        "promotionEvidence must use the reviewed exact schema"
    raise_if (not (equals_number 1 (get "schemaVersion" fs)))
        "promotionEvidence schemaVersion must be integer 1"
    raise_if (not (is_digest 64 (get "candidateSha256" fs))) "candidateSha256 must be a SHA-256"
    raise_if (not (is_digest 64 (get "sha256SumsSha256" fs))) "sha256SumsSha256 must be a SHA-256"
    raise_if (not (is_digest 64 (get "payloadBundleSha256" fs)))
        "payloadBundleSha256 must be a SHA-256"
    raise_if (not (same_text (get "sha256SumsSha256" fs) sums))
        "promotionEvidence sha256SumsSha256 must match the signed top-level digest"
    raise_if (not (equals_number 19 (get "payloadCount" fs)))
        "promotionEvidence payloadCount must be integer 19"
  check_promotion v sums = err (value_error "promotionEvidence must use the reviewed exact schema")

  -- The three keys of the evidence stand in the manifest together or not at all.
  unfoldable pub check_evidence : Fields → Result (Unit {0})
  check_evidence fs = if not (any (contains (keys fs)) evidence_keys) then ok tt else do
    raise_if (not (all (contains (keys fs)) evidence_keys))
        "evidence must appear as one complete bundle"
    raise_if (not (is_digest 40 (get "sourceCommit" fs)))
        "sourceCommit must be a canonical lowercase Git SHA-1"
    raise_if (not (is_digest 64 (get "sha256SumsSha256" fs)))
        "sha256SumsSha256 must be a canonical lowercase SHA-256"
    check_promotion (get "promotionEvidence" fs) (get "sha256SumsSha256" fs)

-- `[0-9]{1,3}(?:\.[0-9]{1,3}){0,2}`
abbrev is_short_number : List ℕ → Bool
is_short_number [] = false
is_short_number (c ∷ cs) = all is_digit (c ∷ cs) && leb (length (c ∷ cs)) 3

abbrev is_minimum : Option Json → Bool
is_minimum (some (str s)) =
    leb (length (split b'.' (codes s))) 3 && all is_short_number (split b'.' (codes s))
is_minimum v = false

abbrev pub is_asset_schema : String → List String → Bool
is_asset_schema platform present =
    all (contains present) ("url" ∷ "sha256" ∷ [])
    && all
        (λ k.
          k == "url"
          || (k == "sha256" || (k == "minimumSystemVersion" && platform == "macos-universal")))
        present

-- The reviewed address of a platform's file.
abbrev pub asset_url : String → String → String
asset_url version artifact =
    "https://"
    <> (asset_host <> ("/v" <> (version <> ("/YueLink-" <> (version <> ("-" <> artifact))))))

abbrev pub is_url : String → Option Json → Bool
is_url url (some (str s)) = s == url
is_url url v = false

-- The body of the loop over the platforms.
unfoldable pub check_asset : String → String → String → Option Json → Result (Unit {0})
check_asset version platform artifact none = err key_error
check_asset version platform artifact (some (obj asset)) = do
  raise_if (not (is_asset_schema platform (keys asset))) "platform has invalid asset schema"
  raise_if
      (contains (keys asset) "minimumSystemVersion"
        && not (is_minimum (get "minimumSystemVersion" asset)))
      "platform has invalid minimumSystemVersion"
  raise_if (not (is_digest 64 (get "sha256" asset))) "platform has invalid SHA-256"
  raise_if (not (is_url (asset_url version artifact) (get "url" asset)))
      "platform URL is outside the reviewed CDN path"
check_asset version platform artifact (some v) =
    err (value_error "platform has invalid asset schema")

-- The loop over `EXPECTED_PLATFORM_ARTIFACTS`.
unfoldable pub check_assets : String → List (String × String) → Fields → Result (Unit {0})
check_assets version [] platforms = ok tt
check_assets version ((platform, artifact) ∷ more) platforms = do
  check_asset version platform artifact (get platform platforms)
  check_assets version more platforms
