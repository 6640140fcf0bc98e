-- ===== src/ReadRetry/Approved.antt =====
-- The commands that `validate` approves.
use yuelink_ci.Prelude.{
  ℕ, zero, suc, ◌≡◌, refl, sym, subst, ◌⊎◌, String, true, false, List, [], ◌∷◌, ◌++◌, Option, some,
}
use yuelink_ci.Prelude.{
  length, take, drop, codes, starts_with, is_hex_of_length, ◌==◌, ==→eq, string_eq, nat_eq, list_eq,
  Bool-cases, inl, inr, arith,
}
use yuelink_ci.Prelude.Result.{ok, err}
use yuelink_ci.ReadRetry.{
  repository, FileSystem, is_endpoint, is_run_id, is_attestation_name, arg, secret_list,
  certificate_flags, identity_flags, verify_words, check_api, is_download, has_certificate_flags,
  is_verify, Step, ended, again, step, validate,
}

-- The commands that only read: two forms of a GET, the names of the secrets, the download of a
-- source attestation, and its verification against the workflow and a digest, in which the flags of
-- the certificate may stand and the format may be left out.
pub data IsRead : List String → Type 0 where
  endpoint : (e : String) → is_endpoint e ≡ true → IsRead ("gh" ∷ "api" ∷ e ∷ [])
  filtered : (e f : String) → is_endpoint e ≡ true → IsRead ("gh" ∷ "api" ∷ e ∷ "--jq" ∷ f ∷ [])
  secrets : IsRead secret_list
  download :
      (run name directory : String)
      → is_run_id (codes run) ≡ true
      → is_attestation_name name ≡ true
      → IsRead (
          "gh" ∷ "run" ∷ "download" ∷ run ∷ "-R" ∷ repository ∷ "--name" ∷ name ∷ "--dir"
          ∷ directory ∷ [])
  attestation :
      (artifact digest : String)
      → starts_with "-" artifact ≡ false
      → is_hex_of_length 40 digest ≡ true
      → IsRead (
          verify_words
          ++ artifact ∷ identity_flags
          ++ "--source-digest" ∷ digest ∷ "--signer-digest" ∷ digest ∷ "--deny-self-hosted-runners"
            ∷ "--format" ∷ "json" ∷ [])
  with_flags :
      (argv : List String)
      → take 3 argv ≡ verify_words
      → take 4 (drop 6 argv) ≡ certificate_flags
      → IsRead (take 6 argv ++ drop 10 argv)
      → IsRead argv
  without_format :
      (argv : List String)
      → length argv ≡ 15
      → IsRead (argv ++ "--format" ∷ "json" ∷ [])
      → IsRead argv

check_api-IsRead :
    (argv : List String) (target : Option String)
    → take 2 argv ≡ "gh" ∷ "api" ∷ []
    → check_api argv ≡ ok target
    → IsRead argv
unfolding check_api arg
check_api-IsRead (a ∷ b ∷ e ∷ []) target words h =
    let gh : a ≡ "gh" = cc in let api : b ≡ "api" = cc in rw (gh, api) (endpoint e (ground arith))
check_api-IsRead (a ∷ b ∷ e ∷ j ∷ f ∷ []) target words h =
    let gh : a ≡ "gh" = cc in
    let api : b ≡ "api" = cc in
    let jq : j ≡ "--jq" = ground arith in rw (gh, api, jq) (filtered e f (ground arith))
check_api-IsRead argv target words h = absurd (ground arith)

is_download-IsRead : (argv : List String) → is_download argv ≡ true → IsRead argv
unfolding is_download arg
is_download-IsRead (a ∷ b ∷ c ∷ run ∷ d ∷ e ∷ f ∷ name ∷ g ∷ directory ∷ []) h =
    let words : a ∷ b ∷ c ∷ [] ≡ "gh" ∷ "run" ∷ "download" ∷ [] = ground arith in
    let flags : d ∷ e ∷ f ∷ [] ≡ "-R" ∷ repository ∷ "--name" ∷ [] = ground arith in
    let last : g ≡ "--dir" = ground arith in
    let gh : a ≡ "gh" = cc in
    let verb : b ≡ "run" = cc in
    let noun : c ≡ "download" = cc in
    let r : d ≡ "-R" = cc in
    let repo : e ≡ repository = cc in
    let n : f ≡ "--name" = cc in
    rw (gh, verb, noun, r, repo, n, last)
      (download run name directory (ground arith) (ground arith))
is_download-IsRead argv h = absurd (ground arith)

is_verify-shape :
    (a b c artifact r r' w w' s s' d digest e digest' x y z : String)
    → a ∷ b ∷ c ∷ [] ≡ verify_words
    → r ∷ r' ∷ w ∷ w' ∷ s ∷ s' ∷ [] ≡ identity_flags
    → d ≡ "--source-digest"
    → e ≡ "--signer-digest"
    → digest' ≡ digest
    → x ∷ y ∷ z ∷ [] ≡ "--deny-self-hosted-runners" ∷ "--format" ∷ "json" ∷ []
    → verify_words
        ++ artifact ∷ identity_flags
        ++ "--source-digest" ∷ digest ∷ "--signer-digest" ∷ digest ∷ "--deny-self-hosted-runners"
          ∷ "--format" ∷ "json" ∷ []
      ≡ a ∷ b ∷ c ∷ artifact ∷ r ∷ r' ∷ w ∷ w' ∷ s ∷ s' ∷ d ∷ digest ∷ e ∷ digest' ∷ x ∷ y ∷ z ∷ []
is_verify-shape a b c artifact r r' w w' s s' d digest e digest' x y z p q h k l m = cc

is_verify-IsRead : (argv : List String) → is_verify argv ≡ true → IsRead argv
unfolding is_verify arg
is_verify-IsRead
      (a ∷ b ∷ c ∷ artifact ∷ r ∷ r' ∷ w ∷ w' ∷ s ∷ s' ∷ d ∷ digest ∷ e ∷ digest' ∷ x ∷ y ∷ z ∷ [])
      h =
    let first : a ∷ b ∷ c ∷ [] ≡ verify_words = ground arith in
    let flags : r ∷ r' ∷ w ∷ w' ∷ s ∷ s' ∷ [] ≡ identity_flags = ground arith in
    let rest : x ∷ y ∷ z ∷ [] ≡ "--deny-self-hosted-runners" ∷ "--format" ∷ "json" ∷ [] =
      ground arith in
    let source : d ≡ "--source-digest" = ground arith in
    let signer : e ≡ "--signer-digest" = ground arith in
    let same : digest' ≡ digest = ground arith in
    let read = attestation artifact digest (ground arith) (ground arith) in
    subst IsRead
      (is_verify-shape a b c artifact r r' w w' s s' d digest e digest' x y z first flags source
        signer same rest)
      read
is_verify-IsRead argv h = absurd (ground arith)

step-IsRead :
    (files : FileSystem) (argv : List String) (target : Option String)
    → step files argv ≡ ended (ok target)
    → IsRead argv
unfolding step
step-IsRead files argv target h = elim (Bool-cases (take 2 argv == ("gh" ∷ "api" ∷ []))) [
  | inl api ↦ check_api-IsRead argv target (==→eq _ _ api) (ground arith)
  | inr a ↦ elim (Bool-cases (argv == secret_list)) [
    | inl secret ↦ subst IsRead (sym (==→eq argv secret_list secret)) secrets
    | inr b ↦ elim (Bool-cases (is_download argv)) [
      | inl load ↦ is_download-IsRead argv load
      | inr c ↦ elim (Bool-cases (has_certificate_flags argv)) [
        | inl flags ↦ absurd (ground arith)
        | inr d ↦ elim (Bool-cases (is_verify argv)) [
          | inl verify ↦ is_verify-IsRead argv verify
          | inr e ↦ absurd (ground arith)
        ]
      ]
    ]
  ]
]

pub step-again :
    (files : FileSystem) (argv argv' : List String)
    → step files argv ≡ again argv'
    → (has_certificate_flags argv ≡ true) × (argv' ≡ take 6 argv ++ drop 10 argv)
      ⊎ (has_certificate_flags argv ≡ false)
        × (length argv ≡ 15)
        × (argv' ≡ argv ++ "--format" ∷ "json" ∷ [])
unfolding step
step-again files argv argv' h = ground arith

again-IsRead :
    (files : FileSystem) (argv argv' : List String)
    → step files argv ≡ again argv'
    → IsRead argv'
    → IsRead argv
unfolding has_certificate_flags
again-IsRead files argv argv' h read = elim (step-again files argv argv' h) [
  | inl (flags, same) ↦
      with_flags argv (==→eq _ _ (ground arith)) (==→eq _ _ (ground arith)) (subst IsRead same read)
  | inr (other, long, same) ↦ without_format argv long (subst IsRead same read)
]

-- A command that `validate` approves is one of the reads.
pub validate-IsRead :
    (files : FileSystem) (fuel : ℕ) (argv : List String) (target : Option String)
    → validate files fuel argv ≡ some (ok target)
    → IsRead argv
unfolding validate
validate-IsRead files zero argv target h = cc
validate-IsRead files (suc fuel) argv target h =
    by_step (step files argv) refl (λ argv' h'. validate-IsRead files fuel argv' target h')
  where
    by_step :
        (s : Step)
        → step files argv ≡ s
        → ((argv' : List String) → validate files fuel argv' ≡ some (ok target) → IsRead argv')
        → IsRead argv
    by_step (ended (ok t)) e ih = step-IsRead files argv t e
    by_step (ended (err x)) e ih = absurd (ground arith)
    by_step (again argv') e ih = again-IsRead files argv argv' e (ih argv' (ground arith))
