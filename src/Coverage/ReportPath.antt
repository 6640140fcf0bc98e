-- ===== src/Coverage/ReportPath.antt =====
-- `relative`: the path of a report inside the worker's checkout, as POSIX `pathlib` reads it.
use yuelink_ci.Prelude.{ℕ, String, ◌<>◌, not, ◌||◌, List, [], ◌∷◌}
use yuelink_ci.Prelude.{
  Option, none, some, contains, ◌==◌, string_eq, nat_eq, if◌then◌else◌, codes, starts_with,
  split_text, strip_prefix,
}
use yuelink_ci.Prelude.Result.{Result, ok, err, value_error, ◌>>=◌, ◌>>◌, raise_if}

-- A `Path`: "", "/" or "//", and the names behind it.
pub record PosixPath : Type 0 where
  pub root : String
  pub parts : List String

-- A path keeps no empty name and no ".".
unfoldable pub names : List String → List String
unfolding string_eq
names [] = []
names (s ∷ ss) = let rest = names ss in if s == "" || s == "." then rest else s ∷ rest

-- Two slashes at the start, and no third, are a root of their own.
unfoldable pub root_of : List ℕ → String
unfolding nat_eq strip_prefix
root_of cs = elim (strip_prefix (b'/' ∷ []) cs) [
  | none ↦ ""
  | some one ↦ elim (strip_prefix (b'/' ∷ []) one) [
    | none ↦ "/"
    | some two ↦ elim (strip_prefix (b'/' ∷ []) two) [ none ↦ "//" | some three ↦ "/" ]
  ]
]

-- `Path(s)`
unfoldable pub to_path : String → PosixPath
to_path s = record { root = root_of (codes s); parts = names (split_text b'/' s) }

unfoldable pub join_slash : List String → String
join_slash [] = ""
join_slash (s ∷ []) = s
join_slash (s ∷ t ∷ ss) = s <> "/" <> join_slash (t ∷ ss)

-- `str(p)`
unfoldable pub text_of : PosixPath → String
text_of p = elim p.parts [
  | [] ↦ if p.root == "" then "." else p.root
  | name ∷ rest ↦ p.root <> join_slash (name ∷ rest)
]

-- What follows the names of a directory.
unfoldable pub below : List String → List String → Option (List String)
below [] parts = some parts
below (d ∷ ds) [] = none
below (d ∷ ds) (s ∷ ss) = if d == s then below ds ss else none

-- `p.relative_to(directory)`
unfoldable pub relative_to : PosixPath → PosixPath → Result PosixPath
relative_to p directory =
    if p.root == directory.root
    then elim (below directory.parts p.parts) [
      | none ↦ err (value_error "is not in the subpath of")
      | some rest ↦ ok (record { root = ""; parts = rest })
    ]
    else err (value_error "is not in the subpath of")

-- The path that the source goes on with: an absolute one is taken from the worker's directory.
unfoldable pub candidate : PosixPath → PosixPath → Result PosixPath
candidate worker p = if not (p.root == "") then relative_to p worker else ok p

unfoldable pub relative : PosixPath → String → String → Result String
relative worker prefix path = do
  p ← candidate worker (to_path path)
  raise_if (contains p.parts ".." || not (starts_with prefix (text_of p))) "report path escaped"
  ok (text_of p)
