-- ===== src/ReleaseClosure/Sums/Streaming.antt =====
-- Reading a response in blocks: the digest and the size are those of the whole body.
use yuelink_ci.Prelude.{ℕ, zero, suc, ◌+◌, ◌≤◌, ◌≡◌, refl, String, List, [], ◌∷◌, ◌++◌}
use yuelink_ci.Prelude.{length, length-append, take, drop, arith, ap, subst, sym, ◌∙◌}
use yuelink_ci.Prelude.Result.{ok, err, Result, value_or}
use yuelink_ci.Manifest.{Bytes}
use yuelink_ci.ReleaseClosure.{Library, Hash, digest_of, max_sums_bytes}
use yuelink_ci.ReleaseClosure.Sums.{absorb, sha256_of_url, read_url, read_bounded}

-- What `hashlib` documents: repeated calls of `update` are one call with the bytes joined, and no
-- bytes change nothing.
pub record IsStreaming {S : Type 0} (hash : Hash S) : Type 0 where
  pub update-nil : (s : S) → hash.update s [] ≡ s
  pub update-append :
      (s : S) (a b : Bytes) → hash.update (hash.update s a) b ≡ hash.update s (a ++ b)

module _ {ℓ} {A : Type ℓ} where
  append-take-drop : (n : ℕ) (xs : List A) → take n xs ++ drop n xs ≡ xs
  append-take-drop zero xs = refl
  append-take-drop (suc n) [] = refl
  append-take-drop (suc n) (x ∷ xs) = ap (λ ys. x ∷ ys) (append-take-drop n xs)

  length-drop-le : (n : ℕ) (xs : List A) → length (drop n xs) ≤ length xs
  length-drop-le zero xs = omega arith
  length-drop-le (suc n) [] = omega arith
  length-drop-le (suc n) (x ∷ xs) = omega (arith, length-drop-le n xs)

  -- What is read with one byte to spare is the whole, unless it fills the space.
  take-all : (n : ℕ) (xs : List A) → length (take (suc n) xs) ≤ n → take (suc n) xs ≡ xs
  take-all n [] h = refl
  take-all zero (x ∷ xs) h = absurd (omega arith)
  take-all (suc n) (x ∷ xs) h = ap (λ ys. x ∷ ys) (take-all n xs (omega arith))

read_bounded-short :
    (bound : ℕ) (response body : Bytes)
    → read_bounded bound response ≡ ok body
    → (response ≡ body) × (length body ≤ bound)
unfolding read_bounded
read_bounded-short bound response body h =
    let fits : length (take (suc bound) response) ≤ bound = ground arith in
    let whole = take-all bound response fits in
    let read : take (suc bound) response ≡ body = ground arith in
    (sym whole ∙ read, subst (λ bs. length bs ≤ bound) read fits)

-- What `_read_url` returns is the whole body, within its bound.
pub read_url-short :
    (lib : Library) (url : String) (body : Bytes)
    → read_url lib url ≡ ok body
    → (lib.fetch url ≡ ok body) × (length body ≤ max_sums_bytes)
unfolding read_url
read_url-short lib url body h =
    let response : Bytes = value_or [] (lib.fetch url) in
    let (same, short) = read_bounded-short max_sums_bytes response body (ground arith) in
    (ground arith, short)

module _ {S : Type 0} (hash : Hash S) (streaming : IsStreaming hash) where
  absorb_whole :
      (size fuel : ℕ) (s : S) (total : ℕ) (body : Bytes)
      → length body ≤ fuel
      → absorb hash (suc size) fuel s total body ≡ (hash.update s body, total + length body)
  unfolding absorb
  absorb_whole size zero s total [] h = rw streaming.update-nil (ground arith)
  absorb_whole size zero s total (b ∷ bs) h = absurd (omega arith)
  absorb_whole size (suc fuel) s total [] h = rw streaming.update-nil (ground arith)
  absorb_whole size (suc fuel) s total (b ∷ bs) h =
      let block : Bytes = take (suc size) (b ∷ bs) in
      let left : Bytes = drop (suc size) (b ∷ bs) in
      let joined : block ++ left ≡ b ∷ bs = append-take-drop (suc size) (b ∷ bs) in
      let rest =
        absorb_whole size fuel (hash.update s block) (total + length block) left
          (omega (arith, length-drop-le size bs)) in
      rw (rest, streaming.update-append, joined)
        (ap (λ n. (hash.update s (b ∷ bs), n))
          (omega (arith, length-append block left, ap length joined)))

  -- The digest and the size that the loop gives are those of the whole body: it ends with nothing
  -- left to read.
  pub sha256_of_url-whole :
      (lib : Library) (url : String) (body : Bytes)
      → lib.fetch url ≡ ok body
      → sha256_of_url hash lib url ≡ ok (digest_of hash body, length body)
  unfolding sha256_of_url
  sha256_of_url-whole lib url body fetched =
      rw (fetched, absorb_whole 1048575 (length body) hash.fresh 0 body (omega arith))
        (ground arith)

  -- If the source gets a digest, it is that of a body that was served.
  pub sha256_of_url-served :
      (lib : Library) (url : String) (r : String × ℕ)
      → sha256_of_url hash lib url ≡ ok r
      → (body : Bytes) × (lib.fetch url ≡ ok body) × (r ≡ (digest_of hash body, length body))
  sha256_of_url-served lib url r h = served (lib.fetch url) refl
    where
      served :
          (response : Result Bytes)
          → lib.fetch url ≡ response
          → (body : Bytes) × (lib.fetch url ≡ ok body) × (r ≡ (digest_of hash body, length body))
      served (ok body) e = (body, e, cc (h, sha256_of_url-whole lib url body e))
      served (err x) e = absurd (unfold sha256_of_url in cc (rw e at h))
