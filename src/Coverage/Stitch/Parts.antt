-- ===== src/Coverage/Stitch/Parts.antt =====
-- The parts of a protocol, and how they join.
use mathlib.Core.List.{append_assoc, append-nil, map-append}
use yuelink_ci.Prelude.{
  ℕ, ◌+◌, ◌≡◌, ◌≢◌, refl, sym, ap, subst, ◌∙◌, Bool, true, false, List, [], ◌∷◌, ◌++◌, Option, none,
  some, map, All, All-append, arith, string_eq,
}
use yuelink_ci.Json.{Json}
use yuelink_ci.MachineCount.Grammar.{IsOrdinary, IsStart, IsSuccess, IsProtocol, tests}
use yuelink_ci.Coverage.Stitch.Kept.{Kept}
use yuelink_ci.Coverage.Stitch.Shape.{
  Kept-noise, Kept-body, Kept-IsStart, Kept-no_start, Kept-done, Kept-no_done,
}

abbrev pub Record : Type 0
Record = Option Json

-- Ordinary records with n tests.
pub record IsBody (n : ℕ) (es : List Record) : Type 0 where
  pub body : List Json
  pub shape : es ≡ map some body
  pub ordinary : All IsOrdinary body
  pub counted : n ≡ tests body

-- Ordinary records with n tests, and a successful end.
pub record IsTail (n : ℕ) (es : List Record) : Type 0 where
  pub body : List Json
  pub last : Json
  pub shape : es ≡ map some body ++ (some last ∷ [])
  pub ordinary : All IsOrdinary body
  pub ends : IsSuccess last
  pub counted : n ≡ tests body

tests-append : (xs ys : List Json) → tests (xs ++ ys) ≡ tests xs + tests ys
unfolding tests
tests-append [] ys = omega arith
tests-append (x ∷ xs) ys = ground (arith, tests-append xs ys)

pub IsBody-IsTail :
    (m n : ℕ) (es fs : List Record) → IsBody m es → IsTail n fs → IsTail (m + n) (es ++ fs)
IsBody-IsTail m n es fs a b = record {
  body = a.body ++ b.body;
  last = b.last;
  shape =
      rw (a.shape, b.shape, map-append some a.body b.body)
        (sym (append_assoc (map some a.body) (map some b.body) (some b.last ∷ [])));
  ordinary = All-append IsOrdinary a.body b.body a.ordinary b.ordinary;
  ends = b.ends;
  counted = omega (arith, a.counted, b.counted, tests-append a.body b.body);
}

-- The start of a protocol: lines that are no JSON, and the record.
pub record IsHead (es : List Record) : Type 0 where
  pub noise : List Record
  pub first : Json
  pub shape : es ≡ noise ++ (some first ∷ [])
  pub quiet : All (λ e. e ≡ none) noise
  pub starts : IsStart first

IsHead-IsTail : (n : ℕ) (es fs : List Record) → IsHead es → IsTail n fs → IsProtocol (es ++ fs) n
IsHead-IsTail n es fs a b = record {
  noise = a.noise;
  first = a.first;
  body = b.body;
  last = b.last;
  shape =
      rw (a.shape, b.shape)
        (append_assoc a.noise (some a.first ∷ []) (map some b.body ++ (some b.last ∷ [])));
  quiet = a.quiet;
  starts = a.starts;
  ordinary = b.ordinary;
  ends = b.ends;
  counted = b.counted;
}

-- No line is noise.
bare-noise :
    (noise es : List Record)
    → All (λ e. e ≡ none) noise
    → All (λ e. e ≢ none) (noise ++ es)
    → noise ≡ []
bare-noise [] es quiet bare = refl
bare-noise (e ∷ noise) es quiet bare = absurd (bare.0 quiet.0)

-- What is left of a leaf behind its start.
Kept-bare :
    (last : Bool) (n : ℕ) (es out : List Record)
    → IsProtocol es n
    → All (λ e. e ≢ none) es
    → Kept false last es out
    → (d : Json) × (mid rest : List Record) × IsSuccess d
      × (out ≡ mid ++ rest)
      × IsBody n mid
      × Kept false last (some d ∷ []) rest
Kept-bare last n es out p bare k =
    let silent = bare-noise p.noise _ p.quiet (subst (All (λ e. e ≢ none)) p.shape bare) in
    let whole : es ≡ some p.first ∷ (map some p.body ++ (some p.last ∷ [])) =
      rw silent at p.shape in
    let k1 = Kept-no_start last p.first _ out p.starts (rw whole at k) in
    let (body, rest, same, plain, count, k2) =
      Kept-body false last p.body (some p.last ∷ []) out p.ordinary k1 in
    (
      p.last,
      map some body,
      rest,
      p.ends,
      same,
      record {
        body = body;
        shape = refl;
        ordinary = plain;
        counted = omega (arith, count, p.counted);
      },
      k2,
    )

pub Kept-first :
    (last : Bool) (n : ℕ) (es out : List Record)
    → IsProtocol es n
    → Kept true last es out
    → (d : Json) × (start mid rest : List Record) × IsSuccess d
      × (out ≡ start ++ (mid ++ rest))
      × IsHead start
      × IsBody n mid
      × Kept true last (some d ∷ []) rest
Kept-first last n es out p k =
    let (out1, same1, k1) = Kept-noise true last p.noise _ out p.quiet (rw p.shape at k) in
    let (s, out2, same2, begins, k2) = Kept-IsStart last p.first _ out1 p.starts k1 in
    let (body, rest, same3, plain, count, k3) =
      Kept-body true last p.body (some p.last ∷ []) out2 p.ordinary k2 in
    (
      p.last,
      p.noise ++ (some s ∷ []),
      map some body,
      rest,
      p.ends,
      same1
          ∙ ap (λ l. p.noise ++ l) (same2 ∙ ap (λ l. some s ∷ l) same3)
          ∙ sym (append_assoc p.noise (some s ∷ []) (map some body ++ rest)),
      record { noise = p.noise; first = s; shape = refl; quiet = p.quiet; starts = begins },
      record {
        body = body;
        shape = refl;
        ordinary = plain;
        counted = omega (arith, count, p.counted);
      },
      k3,
    )

pub last-IsTail :
    (n : ℕ) (es out : List Record)
    → IsProtocol es n
    → All (λ e. e ≢ none) es
    → Kept false true es out
    → IsTail (n + 0) out
last-IsTail n es out p bare k =
    let (d, mid, rest, good, same, b, k') = Kept-bare true n es out p bare k in
    let (d', one, ends) = Kept-done false d rest good k' in
    record {
      body = b.body;
      last = d';
      shape = same ∙ ap (λ l. mid ++ l) one ∙ ap (λ l. l ++ some d' ∷ []) b.shape;
      ordinary = b.ordinary;
      ends = ends;
      counted = omega (arith, b.counted);
    }

pub middle-IsBody :
    (n : ℕ) (es out : List Record)
    → IsProtocol es n
    → All (λ e. e ≢ none) es
    → Kept false false es out
    → IsBody n out
middle-IsBody n es out p bare k =
    let (d, mid, rest, good, same, b, k') = Kept-bare false n es out p bare k in
    let none_left = Kept-no_done false d rest good k' in
    record {
      body = b.body;
      shape = same ∙ ap (λ l. mid ++ l) none_left ∙ append-nil mid ∙ b.shape;
      ordinary = b.ordinary;
      counted = b.counted;
    }

-- A first leaf that is also the last.
pub whole-IsProtocol :
    (n : ℕ) (es out : List Record)
    → IsProtocol es n
    → Kept true true es out
    → IsProtocol out (n + 0)
whole-IsProtocol n es out p k =
    let (d, start, mid, rest, good, same, head, b, k') = Kept-first true n es out p k in
    let (d', one, ends) = Kept-done true d rest good k' in
    let tail : IsTail (n + 0) (mid ++ rest) = record {
      body = b.body;
      last = d';
      shape = ap (λ l. mid ++ l) one ∙ ap (λ l. l ++ some d' ∷ []) b.shape;
      ordinary = b.ordinary;
      ends = ends;
      counted = omega (arith, b.counted);
    } in
    subst (λ l. IsProtocol l (n + 0)) (sym same)
      (IsHead-IsTail (n + 0) start (mid ++ rest) head tail)

-- A first leaf, and what follows it.
pub first-IsProtocol :
    (n m : ℕ) (es out more : List Record)
    → IsProtocol es n
    → Kept true false es out
    → IsTail m more
    → IsProtocol (out ++ more) (n + m)
first-IsProtocol n m es out more p k tail =
    let (d, start, mid, rest, good, same, head, b, k') = Kept-first false n es out p k in
    let none_left = Kept-no_done true d rest good k' in
    let begins : out ≡ start ++ mid =
      same ∙ ap (λ l. start ++ (mid ++ l)) none_left ∙ ap (λ l. start ++ l) (append-nil mid) in
    subst (λ l. IsProtocol l (n + m))
      (sym (ap (λ l. l ++ more) begins ∙ append_assoc start mid more))
      (IsHead-IsTail (n + m) start (mid ++ more) head (IsBody-IsTail n m mid more b tail))
