-- ===== src/ReadRetry/Private.antt =====
-- The destination of a download that `validate` approves, and what it must be.
use yuelink_ci.Prelude.{
  ℕ, zero, suc, ◌%◌, ◌≡◌, refl, sym, ap, subst, ◌+◌, length-append, ◌∙◌, ◌⊎◌, inl, inr, String,
  true, false, List, [], ◌∷◌, ◌++◌, Option, none, some, take, drop, length, arith, starts_with,
  ◌==◌, ==→eq, Bool-cases,
}
use yuelink_ci.Prelude.{string_eq, nat_eq, list_eq}
use yuelink_ci.Prelude.Result.{ok, err, value_or}
use yuelink_ci.ReadRetry.{
  Status, FileSystem, arg, check_api, repository, secret_list, verify_words, is_download,
  has_certificate_flags, is_verify, destination, Step, ended, again, step, validate,
}
use yuelink_ci.ReadRetry.Approved.{step-again}

-- An empty directory of the caller that no one else may enter, named by an absolute path.
pub record IsPrivate (files : FileSystem) (target : String) : Type 0 where
  pub info : Status
  pub found : files.lstat target ≡ ok info
  pub absolute : starts_with "/" target ≡ true
  pub directory : info.is_directory ≡ true
  pub owned : info.is_owned ≡ true
  pub closed : info.mode % 64 ≡ 0
  pub empty : files.has_entries target ≡ ok false

-- The download of a source attestation to a directory.
abbrev pub download_to : String → String → String → List String
download_to run name directory =
    "gh" ∷ "run" ∷ "download" ∷ run ∷ "-R" ∷ repository ∷ "--name" ∷ name ∷ "--dir" ∷ directory ∷ []

abbrev pub download_words : List String
download_words = "gh" ∷ "run" ∷ "download" ∷ []

-- A command that is no download has no destination, and a download has the one that it names, which
-- is private.
unfoldable pub IsDestined : FileSystem → List String → Option String → Type 0
IsDestined files argv target =
    ((take 3 argv == download_words) ≡ false) × (target ≡ none)
    ⊎ (run name directory : String) × (argv ≡ download_to run name directory)
      × (target ≡ some directory)
      × IsPrivate files directory

abbrev second : List String → String
second (a ∷ b ∷ l) = b
second l = ""

differs : (s t : String) → (s == t) ≡ false → s ≡ t → ⊥
differs s t h same = ground arith

verify-ne-download :
    (argv : List String) → take 3 argv ≡ verify_words → take 3 argv ≡ download_words → ⊥
unfolding string_eq
verify-ne-download argv h k = differs "attestation" "run" refl (ap second (sym h ∙ k))

verify-other :
    (argv : List String) → take 3 argv ≡ verify_words → (take 3 argv == download_words) ≡ false
verify-other argv h = elim (Bool-cases (take 3 argv == download_words)) [
  | inl same ↦ absurd (verify-ne-download argv h (==→eq _ _ same))
  | inr other ↦ other
]

api-other :
    (argv : List String) → take 2 argv ≡ "gh" ∷ "api" ∷ [] → (take 3 argv == download_words) ≡ false
unfolding string_eq
api-other (a ∷ b ∷ argv) h = elim (Bool-cases (take 3 (a ∷ b ∷ argv) == download_words)) [
  | inl same ↦
      let api : b ≡ "api" = ap second h in
      let run : b ≡ "run" = ap second (==→eq (take 3 (a ∷ b ∷ argv)) download_words same) in
      absurd (differs "api" "run" refl (sym api ∙ run))
  | inr other ↦ other
]
api-other argv h = cc

secret-other : (argv : List String) → argv ≡ secret_list → (take 3 argv == download_words) ≡ false
unfolding string_eq list_eq
secret-other argv h = rw h refl

is_verify-words : (argv : List String) → is_verify argv ≡ true → take 3 argv ≡ verify_words
unfolding is_verify
is_verify-words argv h = ==→eq _ _ (ground arith)

take-flags :
    (argv : List String)
    → take 3 argv ≡ verify_words
    → take 3 (take 6 argv ++ drop 10 argv) ≡ verify_words
take-flags (a ∷ b ∷ c ∷ argv) h = h
take-flags argv h = cc

longer-other :
    (argv : List String)
    → (take 3 (argv ++ "--format" ∷ "json" ∷ []) == download_words) ≡ false
    → length argv ≡ 15
    → (take 3 argv == download_words) ≡ false
longer-other (a ∷ b ∷ c ∷ argv) h long = h
longer-other argv h long = absurd (omega (arith, long))

module _ (files : FileSystem) where
  destination-some :
      (path : String) (target : Option String)
      → destination files path ≡ ok target
      → target ≡ some path
  unfolding destination
  destination-some path target h = ground arith

  destination-IsPrivate :
      (path target : String) → destination files path ≡ ok (some target) → IsPrivate files target
  unfolding destination
  destination-IsPrivate path target h =
      let nobody : Status = record {
        device = 0;
        inode = 0;
        is_directory = false;
        is_owned = false;
        mode = 0;
      } in
      let info = value_or nobody (files.lstat path) in
      let same : target ≡ path = ground arith in
      rw same (record {
        info = info;
        found = ground arith;
        absolute = ground arith;
        directory = ground arith;
        owned = ground arith;
        closed = ground arith;
        empty = ground arith;
      })

  download-IsDestined :
      (argv : List String) (target : Option String)
      → is_download argv ≡ true
      → destination files (arg 9 argv) ≡ ok target
      → IsDestined files argv target
  unfolding is_download arg IsDestined
  download-IsDestined (a ∷ b ∷ c ∷ run ∷ d ∷ e ∷ f ∷ name ∷ g ∷ directory ∷ []) target h k =
      let words : a ∷ b ∷ c ∷ [] ≡ download_words = ground arith in
      let flags : d ∷ e ∷ f ∷ [] ≡ "-R" ∷ repository ∷ "--name" ∷ [] = ground arith in
      let last : g ≡ "--dir" = ground arith in
      let shape : a ∷ b ∷ c ∷ run ∷ d ∷ e ∷ f ∷ name ∷ g ∷ directory ∷ []
          ≡ download_to run name directory =
        cc in
      let named = destination-some directory target k in
      inr (
        run,
        name,
        directory,
        shape,
        named,
        destination-IsPrivate directory directory (k ∙ ap ok named),
      )
  download-IsDestined argv target h k = absurd (ground arith)

  step-IsDestined :
      (argv : List String) (target : Option String)
      → step files argv ≡ ended (ok target)
      → IsDestined files argv target
  unfolding step check_api IsDestined
  step-IsDestined argv target h = elim (Bool-cases (take 2 argv == ("gh" ∷ "api" ∷ []))) [
    | inl api ↦ inl (api-other argv (==→eq _ _ api), ground arith)
    | inr a ↦ elim (Bool-cases (argv == secret_list)) [
      | inl secret ↦ inl (secret-other argv (==→eq argv secret_list secret), ground arith)
      | inr b ↦ elim (Bool-cases (is_download argv)) [
        | inl load ↦ download-IsDestined argv target load (ground arith)
        | inr c ↦ elim (Bool-cases (has_certificate_flags argv)) [
          | inl flags ↦ absurd (ground arith)
          | inr d ↦ elim (Bool-cases (is_verify argv)) [
            | inl verify ↦ inl (verify-other argv (is_verify-words argv verify), ground arith)
            | inr e ↦ absurd (ground arith)
          ]
        ]
      ]
    ]
  ]

  again-IsDestined :
      (argv argv' : List String) (target : Option String)
      → step files argv ≡ again argv'
      → IsDestined files argv' target
      → IsDestined files argv target
  unfolding has_certificate_flags IsDestined
  again-IsDestined argv argv' target h ih = elim (step-again files argv argv' h) [
    | inl (flags, same) ↦
        let words : take 3 argv ≡ verify_words = ==→eq _ _ (ground arith) in
        let words' : take 3 argv' ≡ verify_words = ap (take 3) same ∙ take-flags argv words in
        elim ih [
          | inl (other, nothing) ↦ inl (verify-other argv words, nothing)
          | inr (run, name, directory, shape, named, own) ↦
              absurd (verify-ne-download argv' words' (ap (take 3) shape))
        ]
    | inr (other_flags, long, same) ↦ elim ih [
      | inl (other, nothing) ↦ inl (
        longer-other argv (subst (λ l. (take 3 l == download_words) ≡ false) same other) long,
        nothing,
      )
      | inr (run, name, directory, shape, named, own) ↦
          let long' : length argv' ≡ 10 = ap length shape in
          let longer : length argv' ≡ length argv + 2 =
            ap length same ∙ length-append argv ("--format" ∷ "json" ∷ []) in
          absurd (omega (arith, long, long', longer))
    ]
  ]

  -- A command that `validate` approves is no download and has no destination, or it is a download of
  -- a source attestation and its destination is the directory that it names, which is an empty
  -- private directory of the caller under an absolute path.
  pub validate-IsPrivate :
      (fuel : ℕ) (argv : List String) (target : Option String)
      → validate files fuel argv ≡ some (ok target)
      → IsDestined files argv target
  unfolding validate
  validate-IsPrivate zero argv target h = cc
  validate-IsPrivate (suc fuel) argv target h =
      by_step (step files argv) refl (λ argv' h'. validate-IsPrivate fuel argv' target h')
    where
      by_step :
          (s : Step)
          → step files argv ≡ s
          → ((argv' : List String)
              → validate files fuel argv' ≡ some (ok target)
              → IsDestined files argv' target)
          → IsDestined files argv target
      by_step (ended (ok t)) e ih = step-IsDestined argv target (ground arith)
      by_step (ended (err x)) e ih = absurd (ground arith)
      by_step (again argv') e ih = again-IsDestined argv argv' target e (ih argv' (ground arith))
