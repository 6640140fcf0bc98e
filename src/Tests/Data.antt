-- ===== src/Tests/Data.antt =====
-- Values that the tests share.
use yuelink_ci.Prelude.{String, List, [], ◌∷◌}
use yuelink_ci.Json.{Json, obj, arr, Items, nil, cons, Fields, end, field}

abbrev pub members : List (String × Json) → Fields
members [] = end
members ((k, v) ∷ ms) = field k v (members ms)

abbrev pub object : List (String × Json) → Json
object ms = obj (members ms)

abbrev pub items : List Json → Items
items [] = nil
items (v ∷ vs) = cons v (items vs)

abbrev pub array : List Json → Json
array vs = arr (items vs)
