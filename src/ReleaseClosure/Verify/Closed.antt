-- ===== src/ReleaseClosure/Verify/Closed.antt =====
-- What an exit status of 0 says of the files of a release.
use yuelink_ci.Prelude.{ℕ, ◌≤◌, ◌≡◌, refl, String, ◌<>◌, true}
use yuelink_ci.Prelude.{List, [], ◌∷◌, map, Option, none, some, All, Distinct, length}
use yuelink_ci.Prelude.{string_eq, rsplit_slash, arith}
use yuelink_ci.Prelude.{not}
use yuelink_ci.Prelude.Result.{Result, ok, value_or, ◌>>=◌, raise_if}
use yuelink_ci.Json.{Json, null, str, obj, Fields, end, field, item, get}
use yuelink_ci.Manifest.{Bytes}
use yuelink_ci.Manifest.Verify.{verify}
use yuelink_ci.Manifest.Verify.Accepted.{IsVerified, verify-IsAuthentic}
use yuelink_ci.ReleaseClosure.{Library, Hash, digest_of, max_sums_bytes}
use yuelink_ci.ReleaseClosure.Sums.{read_url, sha256_of_url, Entry, name_of, find_entry, as_text}
use yuelink_ci.ReleaseClosure.Sums.{is_bound, file_name, same_set, expected_files}
use yuelink_ci.ReleaseClosure.Sums.{check_bindings, parse_sums}
use yuelink_ci.ReleaseClosure.Sums.Parsed.{Lines, parse_lines_iff}
use yuelink_ci.ReleaseClosure.Sums.Streaming.{IsStreaming, read_url-short, sha256_of_url-served}
use yuelink_ci.ReleaseClosure.Verify.{any_url, base_of, sums_name, failures, check_release}
use yuelink_ci.ReleaseClosure.Verify.{verify_release, main}

-- The checksum file has, for the file at the platform's address, the digest that the manifest has.
pub record IsBoundTo (entries : List Entry) (value : Json) : Type 0 where
  pub spec : Fields
  pub whole : value ≡ obj spec
  pub url : String
  pub addressed : item "url" spec ≡ ok (str url)
  pub filename : String
  pub named : file_name (rsplit_slash url) ≡ ok filename
  pub sha256 : Json
  pub listed : item "sha256" spec ≡ ok sha256
  pub same : is_bound (find_entry filename entries) sha256 ≡ true

abbrev pub AreBound : List Entry → Fields → Type 0
AreBound entries end = Unit
AreBound entries (field name value more) = IsBoundTo entries value × AreBound entries more

spec-IsBoundTo :
    (entries : List Entry) (spec : Fields) (u : Result Json)
    → item "url" spec ≡ u
    → (u >>= as_text >>= λ url. file_name (rsplit_slash url) >>= λ filename.
        item "sha256" spec >>= λ sha256.
        raise_if
          (not (is_bound (find_entry filename entries) sha256))
          "SHA256SUMS filename/hash binding mismatch")
      ≡ ok tt
    → IsBoundTo entries (obj spec)
spec-IsBoundTo entries spec (ok (str url)) e h =
    let filename : String = value_or "" (file_name (rsplit_slash url)) in
    let sha256 : Json = value_or null (item "sha256" spec) in
    record {
      spec = spec;
      whole = refl;
      url = url;
      addressed = e;
      filename = filename;
      named = ground arith;
      sha256 = sha256;
      listed = ground arith;
      same = ground arith;
    }
spec-IsBoundTo entries spec u e h = ground arith

check_bindings-AreBound :
    (entries : List Entry) (platforms : Fields)
    → check_bindings entries platforms ≡ ok tt
    → AreBound entries platforms
unfolding check_bindings
check_bindings-AreBound entries end h = tt
check_bindings-AreBound entries (field name (obj spec) more) h = (
  spec-IsBoundTo entries spec (item "url" spec) refl (ground arith),
  check_bindings-AreBound entries more (ground arith),
)
check_bindings-AreBound entries (field name value more) h = absurd (ground arith)

module _ {S : Type 0} (hash : Hash S) (lib : Library) where
  -- The checksum file of a release: the one at its address, with the signed digest, within its
  -- bound, with an entry for each file, and with the digests of the manifest.
  pub record IsSummed (version url anchor : String) (platforms : Fields) (entries : List Entry)
      : Type 0 where
    pub body : Bytes
    pub fetched : lib.fetch (lib.urljoin url (sums_name version)) ≡ ok body
    pub short : length body ≤ max_sums_bytes
    pub hashed : digest_of hash body ≡ anchor
    pub text : String
    pub decoded : lib.manifest.decode body ≡ some text
    pub read : Lines lib (lib.splitlines text) entries
    pub distinct : Distinct (map name_of entries)
    pub complete : same_set (map name_of entries) (expected_files version) ≡ true
    pub bound : AreBound entries platforms

  -- The file that is served has the digest of its entry.
  abbrev pub IsIntact : String → Entry → Type 0
  IsIntact base (filename, want) =
      (body : Bytes) × (lib.fetch (base <> filename) ≡ ok body) × (digest_of hash body ≡ want)

  pub record IsClosed (manifest : Fields) : Type 0 where
    pub version : String
    pub named : item "version" manifest ≡ ok (str version)
    pub platforms : Fields
    pub listed : item "platforms" manifest ≡ ok (obj platforms)
    pub anchor : String
    pub anchored : get "sha256SumsSha256" manifest ≡ some (str anchor)
    pub url : String
    pub first : any_url platforms ≡ ok url
    pub entries : List Entry
    pub summed : IsSummed version url anchor platforms entries
    pub intact : All (IsIntact (base_of url)) entries

  failures-nil :
      IsStreaming hash
      → (base : String) (entries : List Entry) → failures hash lib base entries ≡ ok []
      → All (IsIntact base) entries
  unfolding failures
  failures-nil streaming base [] h = tt
  failures-nil streaming base ((filename, want) ∷ more) h =
      let r : String × ℕ = value_or ("", 0) (sha256_of_url hash lib (base <> filename)) in
      let (body, fetched, same) =
        sha256_of_url-served hash streaming lib (base <> filename) r (ground arith) in
      ((body, fetched, ground arith), failures-nil streaming base more (ground arith))

  abbrev json_or_null : Option Json → Json
  json_or_null none = null
  json_or_null (some value) = value

  abbrev text_or_nil : Option String → String
  text_or_nil none = ""
  text_or_nil (some text) = text

  parse_sums-IsSummed :
      (body : Bytes) (manifest : Fields) (version url anchor : String) (platforms : Fields)
      (entries : List Entry)
      → item "version" manifest ≡ ok (str version)
      → item "platforms" manifest ≡ ok (obj platforms)
      → lib.fetch (lib.urljoin url (sums_name version)) ≡ ok body
      → length body ≤ max_sums_bytes
      → digest_of hash body ≡ anchor
      → parse_sums lib body manifest ≡ ok entries
      → IsSummed version url anchor platforms entries
  unfolding parse_sums
  parse_sums-IsSummed body manifest version url anchor platforms entries named listed fetched short
        hashed h =
      let text : String = text_or_nil (lib.manifest.decode body) in
      let (read, distinct) = (parse_lines_iff lib (lib.splitlines text) entries).0 (ground arith) in
      record {
        body = body;
        fetched = fetched;
        short = short;
        hashed = hashed;
        text = text;
        decoded = ground arith;
        read = read;
        distinct = distinct;
        complete = ground arith;
        bound = check_bindings-AreBound entries platforms (ground arith);
      }

  check_release-IsClosed :
      IsStreaming hash
      → (manifest : Fields) (version platforms anchor : Json) → item "version" manifest ≡ ok version
      → item "platforms" manifest ≡ ok platforms
      → get "sha256SumsSha256" manifest ≡ some anchor
      → check_release hash lib manifest version platforms anchor ≡ ok 0
      → IsClosed manifest
  unfolding check_release
  check_release-IsClosed streaming manifest (str version) (obj platforms) (str anchor) named listed
        anchored h =
      let url : String = value_or "" (any_url platforms) in
      let body : Bytes = value_or [] (read_url lib (lib.urljoin url (sums_name version))) in
      let entries : List Entry = value_or [] (parse_sums lib body manifest) in
      let (fetched, short) =
        read_url-short lib (lib.urljoin url (sums_name version)) body (ground arith) in
      record {
        version = version;
        named = named;
        platforms = platforms;
        listed = listed;
        anchor = anchor;
        anchored = anchored;
        url = url;
        first = ground arith;
        entries = entries;
        summed =
            parse_sums-IsSummed body manifest version url anchor platforms entries named listed
              fetched short (ground arith) (ground arith);
        intact = failures-nil streaming (base_of url) entries (ground arith);
      }
  check_release-IsClosed streaming manifest version platforms anchor named listed anchored h =
      absurd (ground arith)

  -- If `verify_release` returns 0, the checksum file at its address has the digest that the manifest
  -- anchors and at most 64 KiB, has one line for each of the 19 files and no other and binds the
  -- platforms' addresses to the digests of the manifest, and every file that is served has its digest.
  pub verify_release-IsClosed :
      IsStreaming hash
      → (manifest : Fields) → verify_release hash lib manifest ≡ ok 0
      → IsClosed manifest
  unfolding verify_release
  verify_release-IsClosed streaming manifest h =
      let version : Json = value_or null (item "version" manifest) in
      let platforms : Json = value_or null (item "platforms" manifest) in
      let anchor : Json = json_or_null (get "sha256SumsSha256" manifest) in
      check_release-IsClosed streaming manifest version platforms anchor (ground arith)
        (ground arith) (ground arith) (ground arith)

  -- If `main` exits with 0, the manifest that the file's bytes hold is authentic and admitted and
  -- above the authentic manifest that the bytes of the reviewed minimum hold, and its release is
  -- closed.
  pub main-IsClosed :
      IsStreaming hash
      → (raw : Bytes) (floor_raw : Option Bytes) (now : ℕ) → main hash lib raw floor_raw now ≡ ok 0
      → (manifest : Fields) × IsVerified lib.manifest raw floor_raw now manifest × IsClosed manifest
  unfolding main
  main-IsClosed streaming raw floor_raw now h =
      let manifest : Fields = value_or end (verify lib.manifest raw floor_raw now) in
      let accepted : verify lib.manifest raw floor_raw now ≡ ok manifest = ground arith in
      (
        manifest,
        verify-IsAuthentic lib.manifest raw floor_raw now manifest accepted,
        verify_release-IsClosed streaming manifest (ground arith),
      )
