-- ===== src/Baseline/Selected.antt =====
-- What a baseline that the command prints satisfies.
use yuelink_ci.Prelude.{ℕ, ◌≡◌, ◌≢◌, String, ◌<>◌, true, Option, some}
use yuelink_ci.Prelude.{string_eq, is_hex_of_length, arith}
use yuelink_ci.Prelude.Result.{ok, value_or}
use yuelink_ci.Json.{Json, str, Fields, end, get}
use yuelink_ci.Manifest.{Library, Bytes}
use yuelink_ci.Manifest.Policy.Accepted.{IsAdmitted, validate_manifest_policy-IsAdmitted}
use yuelink_ci.Manifest.Verify.{verify_signed_manifest, verify_historical_archive}
use yuelink_ci.Manifest.Verify.Accepted.{IsAuthentic, verify_signed_manifest-IsAuthentic}
use yuelink_ci.Baseline.{Git, exact_sha, select_baseline, validate_baseline, main}

-- The baseline is a commit below the candidate, with another tree.
pub record IsBelow (git : Git) (baseline : String) : Type 0 where
  pub candidate : String
  pub head : git.rev_parse "HEAD" ≡ ok candidate
  pub other : baseline ≢ candidate
  pub commit : git.rev_parse (baseline <> "^{commit}") ≡ ok baseline
  pub ancestor : git.is_ancestor baseline candidate ≡ ok tt
  pub tree : String
  pub rooted : git.rev_parse (baseline <> "^{tree}") ≡ ok tree
  pub candidate_tree : String
  pub candidate_rooted : git.rev_parse "HEAD^{tree}" ≡ ok candidate_tree
  pub changed : tree ≢ candidate_tree

validate_baseline-IsBelow :
    (git : Git) (baseline : String) → validate_baseline git baseline ≡ ok tt → IsBelow git baseline
unfolding validate_baseline
validate_baseline-IsBelow git baseline h =
    let candidate = value_or "" (git.rev_parse "HEAD") in
    let tree = value_or "" (git.rev_parse (baseline <> "^{tree}")) in
    let candidate_tree = value_or "" (git.rev_parse "HEAD^{tree}") in
    record {
      candidate = candidate;
      head = ground arith;
      other = λ e. ground arith;
      commit = ground arith;
      ancestor = ground arith;
      tree = tree;
      rooted = ground arith;
      candidate_tree = candidate_tree;
      candidate_rooted = ground arith;
      changed = λ e. ground arith;
    }

exact_sha-eq :
    (v : Option Json) (baseline : String)
    → exact_sha v ≡ ok baseline
    → (v ≡ some (str baseline)) × (is_hex_of_length 40 baseline ≡ true)
exact_sha-eq (some (str s)) baseline h = ground arith
exact_sha-eq v baseline h = absurd (ground arith)

module _ (lib : Library) where
  -- The baseline is the source commit of an authentic manifest that the policy admits.
  pub record IsSignedBaseline (now : ℕ) (baseline : String) : Type 0 where
    pub manifest : Fields
    pub authentic : IsAuthentic lib manifest
    pub admitted : IsAdmitted lib manifest now
    pub carried : get "sourceCommit" manifest ≡ some (str baseline)
    pub exact : is_hex_of_length 40 baseline ≡ true

  select_baseline-IsSignedBaseline :
      (raw : Bytes) (now : ℕ) (baseline : String)
      → select_baseline lib raw now ≡ ok baseline
      → IsSignedBaseline now baseline
  unfolding select_baseline verify_historical_archive
  select_baseline-IsSignedBaseline raw now baseline h =
      let manifest = value_or end (verify_signed_manifest lib raw) in
      let (carried, exact) = exact_sha-eq (get "sourceCommit" manifest) baseline (ground arith) in
      record {
        manifest = manifest;
        authentic = verify_signed_manifest-IsAuthentic lib raw manifest (ground arith);
        admitted = validate_manifest_policy-IsAdmitted lib manifest now (ground arith);
        carried = carried;
        exact = exact;
      }

  -- A baseline that `main` prints for a checkout is the source commit of an authentic manifest that
  -- the policy admits, and is a commit there, an ancestor of the candidate and not the candidate,
  -- with another tree.
  pub main-IsSignedBaseline :
      (raw : Bytes) (now : ℕ) (git : Git) (baseline : String)
      → main lib raw now (some git) ≡ ok baseline
      → IsSignedBaseline now baseline × IsBelow git baseline
  unfolding main
  main-IsSignedBaseline raw now git baseline h = (
    select_baseline-IsSignedBaseline raw now baseline (ground arith),
    validate_baseline-IsBelow git baseline (ground arith),
  )
