-- ===== src/ClientPolicy/Fields.antt =====
-- `require`, `shape`, `timestamp`, `digest`, `version` and `evidence`: the checks of single values.
use yuelink_ci.Prelude.{ℕ, String, Bool, false, not, ◌&&◌, ◌||◌, List, [], ◌∷◌, Option, none}
use yuelink_ci.Prelude.{some, ◌<>◌, codes, between, is_digit, is_letter, is_hex, is_hex_of_length}
use yuelink_ci.Prelude.{all, leb, length, take, drop, split, strip_prefix, is_word_of}
use yuelink_ci.Prelude.{fits_template, ◌==◌, string_eq, nat_eq, list_eq, if◌then◌else◌}
use yuelink_ci.Prelude.Result.{Result, ok, err, value_error, ◌>>=◌, ◌>>◌, key_error}
use yuelink_ci.Json.{Json, str, obj, item, has_exact_keys}
use yuelink_ci.Json
use yuelink_ci.ClientPolicy.{Url, Library, Stamp, Evidence, repository}

unfoldable pub require : Bool → String → Result (Unit {0})
require condition message =
    if condition then ok tt else err (value_error ("compatibility: " <> message))

-- The items of an object with exactly these keys.
unfoldable pub shape : Json → List String → String → Result Json.Fields
shape (obj fs) expected label = do
  require (has_exact_keys fs expected) (label <> " shape is not exact")
  ok fs
shape v expected label = err (value_error ("compatibility: " <> (label <> " shape is not exact")))

unfoldable pub digest : Json → Result String
digest (str s) = do require (is_hex_of_length 64 s) "invalid SHA-256"; ok s
digest v = err (value_error "compatibility: invalid SHA-256")

-- `[0-9]+\.[0-9]+\.[0-9]+`
abbrev is_three_numbers : List (List ℕ) → Bool
is_three_numbers (a ∷ b ∷ c ∷ []) =
    is_word_of is_digit a && is_word_of is_digit b && is_word_of is_digit c
is_three_numbers other = false

unfoldable pub version : Json → Result String
version (str s) = do
  require (is_three_numbers (split b'.' (codes s))) "version must be stable X.Y.Z"
  ok s
version v = err (value_error "compatibility: version must be stable X.Y.Z")

-- `[A-Za-z0-9_.-]`
abbrev is_name_char : ℕ → Bool
is_name_char c = is_letter c || is_digit c || (c == b'_' || (c == b'.' || c == b'-'))

-- `/[A-Za-z0-9_./-]+`
abbrev is_file_path : List ℕ → Bool
is_file_path cs = elim (strip_prefix (codes "/") cs) [
  | none ↦ false
  | some name ↦ is_word_of (λ c. is_name_char c || c == b'/') name
]

-- `[0-9a-f]{40}/[A-Za-z0-9_./-]+`
abbrev is_blob_path : List ℕ → Bool
is_blob_path cs = length (take 40 cs) == 40 && all is_hex (take 40 cs) && is_file_path (drop 40 cs)

-- `tag/NAME` or `download/NAME/NAME`
abbrev is_release_path : List (List ℕ) → Bool
is_release_path (kind ∷ name ∷ []) = kind == codes "tag" && is_word_of is_name_char name
is_release_path (kind ∷ tag ∷ name ∷ []) =
    kind == codes "download" && is_word_of is_name_char tag && is_word_of is_name_char name
is_release_path other = false

-- `re.fullmatch(pattern, parsed.path)` for the pattern of this repository or of a product's.
unfoldable pub is_approved_path : Option String → String → Bool
unfolding strip_prefix split is_word_of
is_approved_path none path = elim (strip_prefix (codes "/onesyue/yuelink-ci/blob/") (codes path)) [
  | none ↦ false
  | some rest ↦ is_blob_path rest
]
is_approved_path (some repo) path =
    elim (strip_prefix (codes ("/" <> (repo <> "/releases/"))) (codes path)) [
      | none ↦ false
      | some rest ↦ is_release_path (split b'/' rest)
    ]

-- The characters that a public evidence URL may have.
unfoldable pub is_plain_url : String → Bool
is_plain_url url =
    leb (length (codes url)) 1024
    && all (λ c. between 33 126 c && not (c == b'?') && not (c == b'#')) (codes url)

unfoldable pub is_public_url : String → Url → Bool
unfolding split
is_public_url url parsed =
    parsed.scheme == "https"
    && parsed.netloc == "github.com"
    && parsed.query == ""
    && parsed.fragment == ""
    && all (λ c. not (c == b'%') && not (c == b'\\')) (codes url)
    && all (λ part. not (part == codes ".") && not (part == codes ".."))
        (split b'/' (codes parsed.path))

module _ (lib : Library) where
  abbrev instant : Option ℕ → String → Result Stamp
  instant none s = err (value_error "compatibility: invalid calendar timestamp")
  instant (some t) s = ok (record { text = s; at = t })

  unfoldable pub timestamp : Json → Result Stamp
  timestamp (str s) = do
    require (fits_template (codes "dddd-dd-ddTdd:dd:ddZ") (codes s))
        "timestamp must be canonical UTC seconds"
    instant (lib.strptime s) s
  timestamp v = err (value_error "compatibility: timestamp must be canonical UTC seconds")

  -- `REPOSITORIES[product]`, which `evidence` reads for a product.
  abbrev pattern_of : Option String → Result (Option String)
  pattern_of none = ok none
  pattern_of (some product) = elim (repository product) [
    | none ↦ err key_error
    | some repo ↦ ok (some repo)
  ]

  abbrev url_text : Json → Result String
  url_text (str s) = ok s
  url_text v = err (value_error "compatibility: invalid public evidence URL")

  unfoldable pub evidence : Json → Option String → Result Evidence
  evidence value product = do
    fs ← shape value ("url" ∷ "sha256" ∷ []) "evidence"
    sha256 ← digest (← item "sha256" fs)
    url ← url_text (← item "url" fs)
    require (is_plain_url url) "invalid public evidence URL"
    parsed ← lib.urlsplit url
    require (is_public_url url parsed) "evidence must be a public immutable GitHub URL"
    approved ← pattern_of product
    require (is_approved_path approved parsed.path) "evidence repository/path is not approved"
    ok (record { url = url; sha256 = sha256 })
