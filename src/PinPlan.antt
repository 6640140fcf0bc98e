-- ===== src/PinPlan.antt =====
-- scripts/reconcile-yuelink-pin.py: the reviewed command for the pin ledger.
pub mod Planned
use Prim.Native.Char.{code}
use yuelink_ci.Prelude.{ℕ, ◌+◌, ◌*◌, String, ◌<>◌, Bool, true, false, not, ◌||◌, List, [], ◌∷◌}
use yuelink_ci.Prelude.{Option, none, some, leb, ltb, length, ◌==◌, string_eq, nat_eq}
use yuelink_ci.Prelude.{is_hex_of_length, if◌then◌else◌}
use yuelink_ci.Prelude.Result.{Result, ok, err, value_error, attribute_error, ◌>>=◌, ◌>>◌, raise_if}
use yuelink_ci.Json.{Json, str, Fields, get, item, is_text}
use yuelink_ci.Manifest
use yuelink_ci.Manifest.{Bytes}
use yuelink_ci.Manifest.Verify.{verify}

-- The manifest's library, and `hashlib.sha256(raw).hexdigest()`.
pub record Library : Type 0 where
  pub manifest : Manifest.Library
  pub sha256 : Bytes → String

-- `MAX_BYTES`
abbrev pub max_bytes : ℕ
max_bytes = 1024 * 1024

-- `timedelta(hours=6)`, in microseconds.
abbrev pub six_hours : ℕ
six_hours = 6 * 3600 * 1000000

-- `s.replace("Z", "+00:00")`
unfoldable pub replace_z : String → String
unfolding nat_eq
replace_z String.[] = ""
replace_z (String.◌∷◌ c s) =
    if code c == b'Z' then "+00:00" <> replace_z s else String.◌∷◌ c (replace_z s)

-- What `plan` returns; `command` is joined by `shlex.join`.
pub record Plan : Type 0 where
  pub status : String
  pub version : String
  pub source_commit : String
  pub update_manifest_sha256 : String
  pub command : List String

abbrev pub command_for : String → String → String → List String
command_for version source digest =
    "python3" ∷ "scripts/release-yaml.py" ∷ "write-yuelink" ∷ "--version" ∷ version
    ∷ "--source-commit" ∷ source ∷ "--update-manifest-sha256" ∷ digest ∷ []

module _ (lib : Library) where
  abbrev pub parsed_time : Option (ℕ × Bool) → Result ℕ
  parsed_time none = err (value_error "Invalid isoformat string")
  parsed_time (some (t, utc)) = ok t

  -- `datetime.fromisoformat(value.replace("Z", "+00:00"))`
  unfoldable pub instant : Json → Result ℕ
  instant (str s) = parsed_time (lib.manifest.fromisoformat (replace_z s))
  instant v = err attribute_error

  -- `verified_at` is the clock that `verify` reads, `now` the one that `plan` reads after it;
  -- `floor_raw` is the reviewed minimum.
  unfoldable pub plan : Bytes → String → String → Option Bytes → ℕ → ℕ → Result Plan
  plan raw version source floor_raw verified_at now = do
    raise_if (ltb max_bytes (length raw)) "manifest exceeds 1 MiB"
    manifest ← verify lib.manifest raw floor_raw verified_at
    expires ← instant (← item "expiresAt" manifest)
    published ← instant (← item "publishedAt" manifest)
    raise_if (leb expires now || ltb (now + six_hours) published)
        "manifest expired or published in the future"
    number ← item "version" manifest
    raise_if (not (is_text version (some number))) "manifest differs from expected release version"
    raise_if (not (is_hex_of_length 40 source))
        "expected source must be a full lowercase commit SHA"
    raise_if (not (is_text source (get "sourceCommit" manifest)))
        "manifest differs from expected release source"
    let digest = lib.sha256 raw
    ok (record {
      status = "PLAN_ONLY";
      version = version;
      source_commit = source;
      update_manifest_sha256 = digest;
      command = command_for version source digest;
    })
