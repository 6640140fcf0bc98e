-- ===== src/ReadRetry/Retryable.antt =====
-- `retryable`: whether the diagnostic of a read that failed is of the transport alone.
use yuelink_ci.Prelude.{
  ℕ, Bool, true, false, not, ◌&&◌, List, [], ◌∷◌, ◌==◌, nat_eq, is_digit, ◌||◌, if◌then◌else◌,
  Bool-cases, inl, inr, arith, ◌≡◌, ◌↔◌,
}
use yuelink_ci.Regex.{
  Regex, text, folded, one, many, empty, followed_by, either, maybe, is_space, full_match,
  search_match,
}
use yuelink_ci.Regex.Matches.{Denotes, Occurs, full_match_iff, search_match_iff}

-- One of the patterns.
abbrev pub any_of : Regex → List Regex → Regex
any_of p [] = p
any_of p (q ∷ qs) = either p (any_of q qs)

-- The patterns one after the other.
abbrev pub in_turn : List Regex → Regex
in_turn [] = empty
in_turn (p ∷ ps) = followed_by p (in_turn ps)

-- `[class]+`
abbrev pub some_of : (ℕ → Bool) → Regex
some_of class = followed_by (one class) (many class)

abbrev pub in_line : ℕ → Bool
in_line c = not (c == 13) && not (c == 10)

abbrev pub in_quotes : ℕ → Bool
in_quotes c = not (c == 34) && in_line c

abbrev pub is_four_or_five : ℕ → Bool
is_four_or_five c = c == b'4' || c == b'5'

-- The words of a real rejection.
unfoldable pub rejection : Regex
rejection =
    any_of
      (in_turn
        (folded "http" ∷ many is_space ∷ one is_four_or_five ∷ one is_digit ∷ one is_digit ∷ []))
      (folded "x509"
        ∷ folded "certificate"
        ∷ folded "invalid"
        ∷ folded "expired"
        ∷ folded "signature"
        ∷ folded "verification failed"
        ∷ folded "mismatch"
        ∷ folded "not available"
        ∷ folded "unauthorized"
        ∷ folded "forbidden"
        ∷ [])

abbrev pub socket_failure : Regex
socket_failure = in_turn (
    any_of (text "read") (text "write" ∷ text "dial" ∷ [])
    ∷ text " tcp "
    ∷ some_of in_line
    ∷ text ": "
    ∷ maybe (any_of (text "read: ") (text "write: " ∷ text "connect: " ∷ []))
    ∷ any_of (text "connection reset by peer")
        (text "connection refused" ∷ text "i/o timeout" ∷ text "network is unreachable" ∷ [])
    ∷ [])

-- The complete diagnostic of a transport failure.
unfoldable pub transport_failure : Regex
transport_failure = in_turn (
    many is_space
    ∷ maybe (text "Error: ")
    ∷ either (text "Get") (text "Head")
    ∷ text " \"https://"
    ∷ some_of in_quotes
    ∷ text "\": "
    ∷ any_of (text "EOF") (
        text "unexpected EOF"
        ∷ followed_by (maybe (text "net/http: ")) (text "TLS handshake timeout")
        ∷ socket_failure
        ∷ [])
    ∷ many is_space
    ∷ [])

-- `decode` is that of the bytes, with a replacement for each that is no UTF-8.
unfoldable pub retryable : (List ℕ → List ℕ) → List ℕ → Bool
retryable decode stderr =
    if search_match rejection (decode stderr)
    then false
    else full_match transport_failure (decode stderr)

-- A diagnostic is retryable exactly if the whole of it is a transport failure's, and no word of a
-- rejection stands in it.
pub retryable_iff :
    (decode : List ℕ → List ℕ) (stderr : List ℕ)
    → (retryable decode stderr ≡ true)
      ↔ ¬ Occurs rejection (decode stderr) × Denotes transport_failure (decode stderr)
unfolding retryable
retryable_iff decode stderr =
    let said = decode stderr in
    elim (Bool-cases (search_match rejection said)) [
      | inl rejected ↦
          (λ h. cc, λ both. absurd (both.0 ((search_match_iff rejection said).0 rejected)))
      | inr clean ↦ (
        λ h. (
          λ o. absurd (ground (arith, (search_match_iff rejection said).1 o)),
          (full_match_iff transport_failure said).0 (rw clean at h),
        ),
        λ both. rw clean ((full_match_iff transport_failure said).1 both.1),
      )
    ]
