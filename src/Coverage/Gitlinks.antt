-- ===== src/Coverage/Gitlinks.antt =====
-- `add_gitlinks`: the worktrees of the submodules of a worker's checkout. A `Path` is the list of its
-- parts; `owned` is the list that the caller removes the worktrees by, also after an error.
pub mod Linked
pub mod Grows
pub mod Opened
pub mod Run
use yuelink_ci.Prelude.{
  ℕ, zero, suc, String, Bool, true, false, not, ◌||◌, ◌&&◌, List, [], ◌∷◌, ◌++◌, map, Option, none,
  some, codes, split, split_text, strip_prefix, starts_with, between, contains, ◌==◌, nat_eq,
  string_eq, if◌then◌else◌,
}
use yuelink_ci.Prelude.Result.{Result, ok, err, value_error, index_error, ◌>>=◌, ◌>>◌, raise_if}

abbrev pub Place : Type 0
Place = List String

abbrev pub Bytes : Type 0
Bytes = List ℕ

abbrev pub Owned : Type 0
Owned = List (Place × Place)

-- What `git` answers in a directory, and what the source asks the file system and Python's texts.
-- `worktree_add original target pin` runs `git worktree add --detach target pin` in `original`.
pub record GitTool : Type 0 where
  pub ls_tree : Place → String → Result Bytes
  pub rev_parse_head : Place → Result Bytes
  pub worktree_add : Place → Place → String → Result (Unit {0})
  pub is_symlink : Place → Bool
  pub decode : Bytes → Result String
  pub strip : String → String

-- The parts of a relative path: "." and what two slashes enclose are none.
unfoldable pub path_parts : List String → Place
path_parts [] = []
path_parts (s ∷ ss) = let rest = path_parts ss in if s == "" || s == "." then rest else s ∷ rest

-- A byte at which `bytes.split()` splits.
abbrev pub is_blank : ℕ → Bool
is_blank c = between 9 13 c || c == 32

unfoldable pub filled : List Bytes → List Bytes
filled [] = []
filled ([] ∷ ws) = filled ws
filled ((c ∷ cs) ∷ ws) = (c ∷ cs) ∷ filled ws

-- `metadata.split()`
unfoldable pub words : Bytes → List Bytes
words cs = filled (split 32 (map (λ c. if is_blank c then 32 else c) cs))

-- `record.split(b"\t", 1)`
unfoldable pub split_tab : Bytes → Result (Bytes × Bytes)
split_tab [] = err (value_error "not enough values to unpack")
split_tab (c ∷ cs) =
    let rest = split_tab cs in
    if c == 9 then ok ([], cs) else do (before, behind) ← rest; ok (c ∷ before, behind)

abbrev pub third : List Bytes → Result Bytes
third (a ∷ b ∷ c ∷ ws) = ok c
third ws = err index_error

abbrev pub Link : Type 0
Link = String × String

-- The list, and how the call ended.
abbrev pub Added : Type 0
Added = Owned × Result (Unit {0})

-- What follows a call that returned.
abbrev pub and_then : Added → (Owned → Added) → Added
and_then (owned, err raised) next = (owned, err raised)
and_then (owned, ok done) next = next owned

module _ (git : GitTool) where
  -- The pin and the path of a record of the tree, if it is of a Gitlink.
  unfoldable pub parse_link : Bytes → Result (Option Link)
  parse_link entry = elim (strip_prefix (codes "160000 ") entry) [
    | none ↦ ok none
    | some rest ↦ do
      (metadata, raw_path) ← split_tab entry
      word ← third (words metadata)
      pin ← git.decode word
      path ← git.decode raw_path
      ok (some (pin, path))
  ]

  -- `git rev-parse HEAD`
  unfoldable pub head_of : Place → Result String
  head_of original = do
    raw ← git.rev_parse_head original
    text ← git.decode raw
    ok (git.strip text)

  -- What stands before the recursive call for one Gitlink: its checkout and its worktree.
  unfoldable pub link_worktree : Place → Place → Link → Result (Place × Place)
  link_worktree source worker (pin, path) = do
    raise_if
        (starts_with "/" path
          || contains (path_parts (split_text b'/' path)) ".."
          || git.is_symlink (source ++ path_parts (split_text b'/' path)))
        "Gitlink escaped the exact source tree"
    observed ← head_of (source ++ path_parts (split_text b'/' path))
    raise_if (not (observed == pin)) "initialized Gitlink does not match its source pin"
    git.worktree_add (source ++ path_parts (split_text b'/' path))
        (worker ++ path_parts (split_text b'/' path)) pin
    ok (source ++ path_parts (split_text b'/' path), worker ++ path_parts (split_text b'/' path))

  -- The loop over the tree. `deeper` is the recursive call.
  unfoldable pub add_links :
      (Place → Place → String → Owned → Added) → Place → Place → List Bytes → Owned → Added
  add_links deeper source worker [] owned = (owned, ok tt)
  add_links deeper source worker (entry ∷ entries) owned = elim (parse_link entry) [
    | err raised ↦ (owned, err raised)
    | ok none ↦ add_links deeper source worker entries owned
    | ok (some link) ↦ elim (link_worktree source worker link) [
      | err raised ↦ (owned, err raised)
      | ok (original, target) ↦
          and_then (deeper original target link.0 (owned ++ (original, target) ∷ []))
            (λ grown. add_links deeper source worker entries grown)
    ]
  ]

  -- With as many further depths as are given: 9 - `depth`.
  unfoldable pub add_gitlinks : ℕ → Place → Place → String → Owned → Added
  add_gitlinks zero source worker revision owned =
      (owned, err (value_error "recursive Gitlink depth exceeds checkout budget"))
  add_gitlinks (suc depths) source worker revision owned = elim (git.ls_tree source revision) [
    | err raised ↦ (owned, err raised)
    | ok tree ↦ add_links (add_gitlinks depths) source worker (split 0 tree) owned
  ]
