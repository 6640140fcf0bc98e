-- ===== src/Attachment.antt =====
-- scripts/attach-client-support-policy.py: a compatibility policy joins an unsigned candidate.
-- `hashlib.sha256(source).hexdigest()` and `json.loads(source)` are arguments.
pub mod Attached
use yuelink_ci.Prelude.{ℕ, String, Bool, true, false, not, ◌||◌, List, [], ◌∷◌, Option, none, some}
use yuelink_ci.Prelude.{contains, string_eq, if◌then◌else◌}
use yuelink_ci.Prelude.Result.{Result, ok, err, value_error, ◌>>=◌, ◌>>◌, raise_if}
use yuelink_ci.Json.{Json, str, obj, Fields, end, field, get, item, keys}
use yuelink_ci.Json.Unique.{hook}
use yuelink_ci.ClientPolicy.{Policy}
use yuelink_ci.ClientPolicy.Fields.{shape}
use yuelink_ci.ClientPolicy.Validate.{validate}
use yuelink_ci.ClientPolicy.Transition.{validate_transition}
use yuelink_ci.Manifest.{Library, Bytes}
use yuelink_ci.Manifest.Policy.{read_compatibility, enforce_minimum}
use yuelink_ci.Manifest.Verify.{verify_signed_manifest}

-- `POLICY_KEYS - {'policySourceSha256'}`
abbrev pub source_keys : List String
source_keys =
    "schemaVersion" ∷ "policyRevision" ∷ "effectiveAt" ∷ "transitionDays" ∷ "enforcement"
    ∷ "unknownClient" ∷ "releases" ∷ []

-- `{**fields, key: value}` for a key that is not there.
unfoldable pub with_item : Fields → String → Json → Fields
with_item end k v = field k v end
with_item (field j w fs) k v = field j w (with_item fs k v)

-- `'sig' in candidate or 'compatibility' in candidate`
abbrev pub is_signed_or_attached : Fields → Bool
is_signed_or_attached fs = contains (keys fs) "sig" || contains (keys fs) "compatibility"

abbrev pub unsigned : Json → Result Fields
unsigned (obj fs) = do
  raise_if (is_signed_or_attached fs)
      "only an unsigned candidate without compatibility can be attached"
  ok fs
unsigned v = err (value_error "only an unsigned candidate without compatibility can be attached")

abbrev pub parsed : Option Json → Result Json
parsed none = err (value_error "policy source is not valid JSON")
parsed (some value) = hook value

module _ (lib : Library) where
  -- The previous manifest with the policy that it carries. `minimum_file` is what reading
  -- the reviewed floor gives.
  unfoldable pub previous_policy : Bytes → Result Bytes → Result (Option Policy)
  previous_policy previous minimum_file = do
    old ← verify_signed_manifest lib previous
    minimum ← minimum_file
    floor ← verify_signed_manifest lib minimum
    enforce_minimum lib old floor
    read_compatibility lib old

  -- `sha256` is the digest of the source's bytes and `loaded` what `json.loads` gives of them.
  unfoldable pub attach : Json → String → Option Json → Bytes → Result Bytes → Result Fields
  attach candidate sha256 loaded previous minimum_file = do
    fs ← unsigned candidate
    old_policy ← previous_policy previous minimum_file
    source_value ← parsed loaded
    source_fields ← shape source_value source_keys "source"
    let result = obj (with_item source_fields "policySourceSha256" (str sha256))
    published_at ← item "publishedAt" fs
    policy ← validate lib.policy result published_at
    validate_transition lib.policy (some policy) old_policy
    ok (with_item fs "compatibility" result)
