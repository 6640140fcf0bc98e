-- ===== src/Coverage/Stitch/Shape.antt =====
-- The parts of a protocol that a joined report keeps.
use yuelink_ci.Prelude.{
  ◌≡◌, refl, inl, inr, Bool, true, false, not, List, [], ◌∷◌, ◌++◌, Option, none, some, map, All,
  arith, string_eq,
}
use yuelink_ci.Json.{Json, obj, get, is_text_distinct}
use yuelink_ci.MachineCount.Grammar.{IsOrdinary, IsStart, IsSuccess, tests}
use yuelink_ci.Coverage.Stitch.{is_dropped}
use yuelink_ci.Coverage.Stitch.Kept.{SameKind, Kept}

pub Kept-noise :
    (first last : Bool) (noise es out : List (Option Json))
    → All (λ e. e ≡ none) noise
    → Kept first last (noise ++ es) out
    → (rest : List (Option Json)) × (out ≡ noise ++ rest) × Kept first last es rest
Kept-noise first last [] es out quiet k = (out, refl, k)
Kept-noise first last (none ∷ noise) es out quiet (rest, same, k) =
    let (rest', same', k') = Kept-noise first last noise es rest quiet.1 k in
    (rest', rw (same, same') refl, k')
Kept-noise first last (some v ∷ noise) es out quiet k = absurd (ground (arith, quiet.0))

ordinary-kept : (first last : Bool) (v : Json) → IsOrdinary v → is_dropped first last v ≡ false
unfolding is_dropped
ordinary-kept first last (obj fs) h = ground arith
ordinary-kept first last v h = refl

SameKind-IsOrdinary : (v w : Json) → SameKind v w → IsOrdinary v → IsOrdinary w
SameKind-IsOrdinary v w same h = rw same.0 h

pub Kept-body :
    (first last : Bool) (body : List Json) (es out : List (Option Json))
    → All IsOrdinary body
    → Kept first last (map some body ++ es) out
    → (body' : List Json) × (rest : List (Option Json)) × (out ≡ map some body' ++ rest)
      × All IsOrdinary body'
      × (tests body' ≡ tests body)
      × Kept first last es rest
unfolding tests
Kept-body first last [] es out plain k = ([], out, refl, tt, refl, k)
Kept-body first last (v ∷ body) es out plain (inl (gone, k)) =
    absurd (ground (arith, ordinary-kept first last v plain.0))
Kept-body first last (v ∷ body) es out plain (inr (there, (w, rest, same, kind, k))) =
    let (body', rest', same', plain', count, k') = Kept-body first last body es rest plain.1 k in
    (
      w ∷ body',
      rest',
      rw (same, same') refl,
      (SameKind-IsOrdinary v w kind plain.0, plain'),
      ground (arith, kind.0),
      k',
    )

start-dropped : (first last : Bool) (v : Json) → IsStart v → is_dropped first last v ≡ not first
unfolding is_dropped string_eq
start-dropped first last (obj fs) h =
    ground (arith, is_text_distinct "start" "done" (get "type" fs) refl h)
start-dropped first last v h = ground arith

done-dropped : (first last : Bool) (v : Json) → IsSuccess v → is_dropped first last v ≡ not last
unfolding is_dropped string_eq
done-dropped first last (obj fs) h =
    ground (arith, is_text_distinct "done" "start" (get "type" fs) refl h.0)
done-dropped first last v h = ground arith

pub Kept-IsStart :
    (last : Bool) (s : Json) (es out : List (Option Json))
    → IsStart s
    → Kept true last (some s ∷ es) out
    → (s' : Json) × (rest : List (Option Json)) × (out ≡ some s' ∷ rest)
      × IsStart s'
      × Kept true last es rest
Kept-IsStart last s es out begins (inl (gone, k)) =
    absurd (ground (arith, start-dropped true last s begins))
Kept-IsStart last s es out begins (inr (there, (w, rest, same, kind, k))) =
    (w, rest, same, rw kind.0 begins, k)

pub Kept-no_start :
    (last : Bool) (s : Json) (es out : List (Option Json))
    → IsStart s
    → Kept false last (some s ∷ es) out
    → Kept false last es out
Kept-no_start last s es out begins (inl (gone, k)) = k
Kept-no_start last s es out begins (inr (there, (w, rest, same, kind, k))) =
    absurd (ground (arith, start-dropped false last s begins))

pub Kept-done :
    (first : Bool) (d : Json) (out : List (Option Json))
    → IsSuccess d
    → Kept first true (some d ∷ []) out
    → (d' : Json) × (out ≡ some d' ∷ []) × IsSuccess d'
Kept-done first d out good (inl (gone, k)) = absurd (ground (arith, done-dropped first true d good))
Kept-done first d out good (inr (there, (w, rest, same, kind, k))) =
    (w, rw (same, k) refl, (rw kind.0 good.0, rw kind.1 good.1))

pub Kept-no_done :
    (first : Bool) (d : Json) (out : List (Option Json))
    → IsSuccess d
    → Kept first false (some d ∷ []) out
    → out ≡ []
Kept-no_done first d out good (inl (gone, k)) = k
Kept-no_done first d out good (inr (there, (w, rest, same, kind, k))) =
    absurd (ground (arith, done-dropped first false d good))
