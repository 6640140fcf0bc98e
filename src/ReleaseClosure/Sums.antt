-- ===== src/ReleaseClosure/Sums.antt =====
-- `_read_url`, `_sha256_of_url` and `_parse_sums`.
pub mod Parsed
pub mod Streaming
use Prim.Native.Char.{code}
use yuelink_ci.Prelude.{ℕ, zero, suc, ◌+◌, String, ◌<>◌, Bool, true, false, not, ◌&&◌, ◌||◌}
use yuelink_ci.Prelude.{List, [], ◌∷◌, ◌++◌, map, Option, none, some, all, contains, ltb, length}
use yuelink_ci.Prelude.{take, drop, codes, is_letter, is_digit, is_word_of, is_hex_of_length}
use yuelink_ci.Prelude.{take_text, drop_text, rsplit_slash, ◌==◌, string_eq, nat_eq}
use yuelink_ci.Prelude.{if◌then◌else◌}
use yuelink_ci.Prelude.Result.{Result, ok, err, value_error, key_error, type_error, index_error}
use yuelink_ci.Prelude.Result.{◌>>=◌, ◌>>◌, raise_if}
use yuelink_ci.Json.{Json, null, str, obj, Fields, end, field, item}
use yuelink_ci.Manifest.{Bytes, expected_artifacts}
use yuelink_ci.ReleaseClosure.{Library, Hash, chunk, max_sums_bytes, notice_platforms}

-- `resp.read(bound + 1)`: one byte more than is allowed shows that the body is too long.
unfoldable pub read_bounded : ℕ → Bytes → Result Bytes
read_bounded bound response = do
  raise_if (ltb bound (length (take (suc bound) response))) "SHA256SUMS exceeds 64 KiB"
  ok (take (suc bound) response)

-- `_read_url`
unfoldable pub read_url : Library → String → Result Bytes
read_url lib url = do response ← lib.fetch url; read_bounded max_sums_bytes response

module _ {S : Type 0} (hash : Hash S) where
  -- The loop of `_sha256_of_url` over what is left of the response; it ends at an empty block.
  unfoldable pub absorb : ℕ → ℕ → S → ℕ → Bytes → S × ℕ
  absorb size zero digest total response = (digest, total)
  absorb size (suc fuel) digest total [] = (digest, total)
  absorb size (suc fuel) digest total (b ∷ bs) =
      let block = take size (b ∷ bs) in
      absorb size fuel (hash.update digest block) (total + length block) (drop size (b ∷ bs))

  -- A block is not empty, so the loop makes no more rounds than there are bytes.
  unfoldable pub sha256_of_url : Library → String → Result (String × ℕ)
  sha256_of_url lib url = do
    response ← lib.fetch url
    (digest, total) ← ok (absorb chunk (length response) hash.fresh 0 response)
    ok (hash.hexdigest digest, total)

-- A file name and its digest.
abbrev pub Entry : Type 0
Entry = String × String

abbrev pub name_of : Entry → String
name_of (name, digest) = name

-- `entries.get(name)`
unfoldable pub find_entry : String → List Entry → Option String
find_entry name [] = none
find_entry name ((j, digest) ∷ more) = if name == j then some digest else find_entry name more

-- `[A-Za-z0-9._-]`
abbrev is_name_char : ℕ → Bool
is_name_char c = is_letter c || is_digit c || (c == b'.' || (c == b'_' || c == b'-'))

-- ` [ *]([A-Za-z0-9._-]+)` behind a digest.
abbrev pub name_behind : String → String → Option Entry
name_behind digest (String.◌∷◌ c (String.◌∷◌ d name)) =
    if code c == b' ' && (code d == b' ' || code d == b'*') && is_word_of is_name_char (codes name)
    then some (name, digest)
    else none
name_behind digest _ = none

-- `re.fullmatch(r"([0-9a-f]{64}) [ *]([A-Za-z0-9._-]+)", line)`
unfoldable pub match_entry : String → Option Entry
unfolding take_text drop_text is_word_of is_hex_of_length nat_eq
match_entry line =
    if is_hex_of_length 64 (take_text 64 line)
    then name_behind (take_text 64 line) (drop_text 64 line)
    else none

-- `expected`: the nine artifacts, and a notice and a record for each of five platforms.
abbrev pub artifact_name : String → String × String → String
artifact_name prefix (platform, suffix) = prefix <> suffix

abbrev pub notices : String → List String → List String
notices prefix [] = []
notices prefix (p ∷ ps) =
    (prefix <> (p <> ("-" <> "INSTALL-NOTICE.txt")))
    ∷ (prefix <> (p <> ("-" <> "RELEASE.json")))
    ∷ notices prefix ps

abbrev pub expected_files : String → List String
expected_files version =
    let prefix = "YueLink-" <> (version <> "-") in
    map (artifact_name prefix) expected_artifacts ++ notices prefix notice_platforms

-- `set(a) == set(b)`
abbrev pub same_set : List String → List String → Bool
same_set a b = all (contains b) a && all (contains a) b

-- `entries.get(filename) == spec["sha256"]`; `None` equals a JSON null.
abbrev pub is_bound : Option String → Json → Bool
is_bound (some digest) (str s) = digest == s
is_bound none null = true
is_bound found value = false

-- A member that a verified manifest has as a text.
abbrev pub as_text : Json → Result String
as_text (str s) = ok s
as_text v = err type_error

abbrev pub as_object : Json → Result Fields
as_object (obj fs) = ok fs
as_object v = err type_error

-- `url.rsplit("/", 1)[1]`
abbrev pub file_name : Option (String × String) → Result String
file_name none = err index_error
file_name (some (before, behind)) = ok behind

-- The loop over the platforms of the manifest.
unfoldable pub check_bindings : List Entry → Fields → Result (Unit {0})
check_bindings entries end = ok tt
check_bindings entries (field name value more) = do
  spec ← as_object value
  url ← as_text (← item "url" spec)
  filename ← file_name (rsplit_slash url)
  sha256 ← item "sha256" spec
  raise_if (not (is_bound (find_entry filename entries) sha256))
      "SHA256SUMS filename/hash binding mismatch"
  check_bindings entries more

module _ (lib : Library) where
  -- The loop over the lines, with the entries so far.
  unfoldable pub parse_lines : List Entry → List String → Result (List Entry)
  unfolding match_entry
  parse_lines entries [] = ok entries
  parse_lines entries (line ∷ lines) =
      let rest = λ (e : Entry). parse_lines (entries ++ e ∷ []) lines in
      let same = parse_lines entries lines in
      if lib.manifest.strip line == "" then same else elim (match_entry line) [
        | none ↦ err (value_error "malformed SHA256SUMS entry")
        | some (name, digest) ↦
            if contains (map name_of entries) name
            then err (value_error "duplicate SHA256SUMS filename")
            else rest (name, digest)
      ]

  abbrev decoded : Option String → Result String
  decoded none = err (value_error "SHA256SUMS is not valid UTF-8")
  decoded (some text) = ok text

  unfoldable pub parse_sums : Bytes → Fields → Result (List Entry)
  unfolding parse_lines check_bindings find_entry
  parse_sums body manifest = do
    version ← as_text (← item "version" manifest)
    text ← decoded (lib.manifest.decode body)
    entries ← parse_lines [] (lib.splitlines text)
    raise_if (not (same_set (map name_of entries) (expected_files version)))
        "SHA256SUMS must contain exactly the 19 release payloads"
    platforms ← as_object (← item "platforms" manifest)
    check_bindings entries platforms
    ok entries
