-- ===== src/Attachment/Attached.antt =====
-- What the manifest that `attach` returns satisfies.
use yuelink_ci.Prelude.{
  ◌≡◌, refl, sym, ap, ◌∙◌, String, List, false, [], Option, none, some, contains, arith, string_eq,
}
use yuelink_ci.Prelude.{◌==◌}
use yuelink_ci.Prelude.Result.{Result, ok, value_or}
use yuelink_ci.Json.{Json, null, str, obj, Fields, end, field, get, item, keys}
use yuelink_ci.Json.Unique.{hook-HasUniqueKeys}
use yuelink_ci.ClientPolicy.{Policy, Stamp}
use yuelink_ci.ClientPolicy.Fields.{shape, timestamp}
use yuelink_ci.ClientPolicy.Validate.{validate}
use yuelink_ci.ClientPolicy.Valid.{IsValid}
use yuelink_ci.ClientPolicy.Valid.Accepted.{validate-IsValid}
use yuelink_ci.ClientPolicy.Transition.{validate_transition}
use yuelink_ci.ClientPolicy.Transition.Laws.{validate_transition_trans}
use yuelink_ci.Manifest.{Library, Bytes}
use yuelink_ci.Manifest.Policy.{read_compatibility}
use yuelink_ci.Manifest.Verify.{verify_signed_manifest}
use yuelink_ci.Manifest.Verify.Accepted.{
  IsContent, IsAbove, verify_signed_manifest-IsContent, IsAuthentic,
  verify_signed_manifest-IsAuthentic, enforce_minimum-IsAbove,
}
use yuelink_ci.Attachment.{with_item, unsigned, parsed, previous_policy, attach, source_keys}

-- The item is there, and the others are as they were.
get-with_item :
    (fs : Fields) (k : String) (v : Json)
    → contains (keys fs) k ≡ false
    → get k (with_item fs k v) ≡ some v
unfolding with_item get
get-with_item end k v h = ground arith
get-with_item (field j w fs) k v h = ground (arith, get-with_item fs k v)

get-with_item_ne :
    (fs : Fields) (k j : String) (v : Json) → (j == k) ≡ false → get j (with_item fs k v) ≡ get j fs
unfolding with_item get
get-with_item_ne end k j v h = ground arith
get-with_item_ne (field i w fs) k j v h = ground (arith, get-with_item_ne fs k j v h)

shape-eq-obj :
    (v : Json) (names : List String) (label : String) (gs : Fields)
    → shape v names label ≡ ok gs
    → v ≡ obj gs
unfolding shape
shape-eq-obj (obj fs) names label gs h = ground arith
shape-eq-obj v names label gs h = cc

loaded-eq-source :
    (loaded : Option Json) (v : Json) (gs : Fields)
    → parsed loaded ≡ ok v
    → shape v source_keys "source" ≡ ok gs
    → loaded ≡ some (obj gs)
loaded-eq-source none v gs h k = cc
loaded-eq-source (some u) v gs h k =
    ap some (sym ((hook-HasUniqueKeys u v).0 h).0 ∙ shape-eq-obj v source_keys "source" gs k)

abbrev no_policy : Policy
no_policy = record {
  raw = null;
  revision = 0;
  effective_at = record { text = ""; at = 0 };
  releases = [];
}

module _ (lib : Library) where
  -- The candidate with a policy that is valid for its publication, and that may follow both the
  -- policy of the authentic manifest that the previous bytes hold and that of the authentic floor
  -- below it, which the bytes of the reviewed minimum hold.
  pub record IsAttached (fs : Fields) (sha256 : String) (loaded : Option Json) (previous : Bytes)
      (minimum_file : Result Bytes) (result : Fields) : Type 0 where
    pub value : Json
    pub carried : get "compatibility" result ≡ some value
    pub others : (k : String) → (k == "compatibility") ≡ false → get k result ≡ get k fs
    pub source : Fields
    pub loads : loaded ≡ some (obj source)
    pub whole : value ≡ obj (with_item source "policySourceSha256" (str sha256))
    pub published_at : Json
    pub dated : item "publishedAt" fs ≡ ok published_at
    pub published : Stamp
    pub stamped : timestamp lib.policy published_at ≡ ok published
    pub policy : Policy
    pub read : validate lib.policy value published_at ≡ ok policy
    pub valid : IsValid published.at policy
    pub old : Fields
    pub old_content : IsContent lib previous old
    pub minimum : Bytes
    pub reviewed : minimum_file ≡ ok minimum
    pub floor : Fields
    pub floor_content : IsContent lib minimum floor
    pub above : IsAbove lib old floor
    pub old_authentic : IsAuthentic lib old
    pub floor_authentic : IsAuthentic lib floor
    pub old_policy : Option Policy
    pub old_read : read_compatibility lib old ≡ ok old_policy
    pub follows : validate_transition lib.policy (some policy) old_policy ≡ ok tt
    pub floor_policy : Option Policy
    pub floor_read : read_compatibility lib floor ≡ ok floor_policy
    pub follows_floor : validate_transition lib.policy (some policy) floor_policy ≡ ok tt

  -- The previous manifest is authentic and above an authentic floor.
  record IsPrevious (previous : Bytes) (minimum_file : Result Bytes) (old_policy : Option Policy)
      : Type 0 where
    old : Fields
    old_content : IsContent lib previous old
    minimum : Bytes
    reviewed : minimum_file ≡ ok minimum
    floor : Fields
    floor_content : IsContent lib minimum floor
    above : IsAbove lib old floor
    old_authentic : IsAuthentic lib old
    floor_authentic : IsAuthentic lib floor
    old_read : read_compatibility lib old ≡ ok old_policy
    floor_policy : Option Policy
    floor_read : read_compatibility lib floor ≡ ok floor_policy
    successor : validate_transition lib.policy old_policy floor_policy ≡ ok tt

  previous_policy-IsPrevious :
      (previous : Bytes) (minimum_file : Result Bytes) (old_policy : Option Policy)
      → previous_policy lib previous minimum_file ≡ ok old_policy
      → IsPrevious previous minimum_file old_policy
  unfolding previous_policy
  previous_policy-IsPrevious previous minimum_file old_policy h =
      let old = value_or end (verify_signed_manifest lib previous) in
      let minimum = value_or [] minimum_file in
      let floor = value_or end (verify_signed_manifest lib minimum) in
      let above = enforce_minimum-IsAbove lib old floor (ground arith) in
      record {
        old = old;
        old_content = verify_signed_manifest-IsContent lib previous old (ground arith);
        minimum = minimum;
        reviewed = ground arith;
        floor = floor;
        floor_content = verify_signed_manifest-IsContent lib minimum floor (ground arith);
        above = above;
        old_authentic = verify_signed_manifest-IsAuthentic lib previous old (ground arith);
        floor_authentic = verify_signed_manifest-IsAuthentic lib minimum floor (ground arith);
        old_read = ground arith;
        floor_policy = above.floor_policy;
        floor_read = above.floor_carried;
        successor = ground (arith, above.carried, above.successor);
      }

  same_unsigned :
      (fs gs : Fields)
      → unsigned (obj fs) ≡ ok gs
      → (gs ≡ fs) × (contains (keys fs) "compatibility" ≡ false)
  same_unsigned fs gs h = ground arith

  -- A manifest that `attach` returns is the candidate with the policy that was loaded, under the
  -- source's digest, which is valid for the candidate's publication, and which may follow the policy
  -- of the authentic manifest that the previous bytes hold and that of the authentic floor below it,
  -- which the bytes of the reviewed minimum hold.
  pub attach-IsAttached :
      (fs : Fields) (sha256 : String) (loaded : Option Json) (previous : Bytes)
      (minimum_file : Result Bytes) (result : Fields)
      → attach lib (obj fs) sha256 loaded previous minimum_file ≡ ok result
      → IsAttached fs sha256 loaded previous minimum_file result
  unfolding attach
  attach-IsAttached fs sha256 loaded previous minimum_file result h =
      let (_, fresh) = same_unsigned fs fs (ground arith) in
      let old_policy = value_or none (previous_policy lib previous minimum_file) in
      let before = previous_policy-IsPrevious previous minimum_file old_policy (ground arith) in
      let source = value_or end (shape (value_or null (parsed loaded)) source_keys "source") in
      let value = obj (with_item source "policySourceSha256" (str sha256)) in
      let published_at = value_or null (item "publishedAt" fs) in
      let policy = value_or no_policy (validate lib.policy value published_at) in
      let read : validate lib.policy value published_at ≡ ok policy = ground arith in
      let (published, stamped, valid) =
        validate-IsValid lib.policy value published_at policy read in
      let follows : validate_transition lib.policy (some policy) old_policy ≡ ok tt =
        ground arith in
      let joined : result ≡ with_item fs "compatibility" value = ground arith in
      record {
        value = value;
        carried = rw joined (get-with_item fs "compatibility" value fresh);
        others = λ k other. rw joined (get-with_item_ne fs "compatibility" k value other);
        source = source;
        loads =
            loaded-eq-source loaded (value_or null (parsed loaded)) source (ground arith)
              (ground arith);
        whole = refl;
        published_at = published_at;
        dated = ground arith;
        published = published;
        stamped = stamped;
        policy = policy;
        read = read;
        valid = valid;
        old = before.old;
        old_content = before.old_content;
        minimum = before.minimum;
        reviewed = before.reviewed;
        floor = before.floor;
        floor_content = before.floor_content;
        above = before.above;
        old_authentic = before.old_authentic;
        floor_authentic = before.floor_authentic;
        old_policy = old_policy;
        old_read = before.old_read;
        follows = follows;
        floor_policy = before.floor_policy;
        floor_read = before.floor_read;
        follows_floor =
            validate_transition_trans lib.policy before.floor_policy old_policy (some policy)
              before.successor follows;
      }
