-- ===== src/Tests/Gitlinks.antt =====
-- A source with a submodule that has a submodule.
use yuelink_ci.Prelude.{
  ◌≡◌, refl, String, false, List, [], ◌∷◌, ◌++◌, codes, split, split_text, strip_prefix,
  starts_with, ◌==◌, list_eq, string_eq, nat_eq, if◌then◌else◌,
}
use yuelink_ci.Prelude.Result.{Result, ok, err, value_error}
use yuelink_ci.Coverage.Main.{range}
use yuelink_ci.Coverage.Snapshot
use yuelink_ci.Coverage.Snapshot.{
  bases, hierarchy, visible_cpus, host_available, quota, headroom, measure, missing,
  resource_snapshot, decimal_text, root_uncontrolled, limit_of,
}
use yuelink_ci.Coverage.Worktrees.{State, set_up, removals, clean_up, with_worktrees}
use yuelink_ci.Prelude.{ℕ, Option, none, some, length, contains}
use yuelink_ci.Prelude.Result.{runtime_error}
use yuelink_ci.Coverage.Gitlinks.{
  Place, Bytes, Owned, GitTool, path_parts, filled, words, split_tab, parse_link, head_of,
  link_worktree, add_links, add_gitlinks,
}
use yuelink_ci.Coverage.Gitlinks.Linked.{IsRun, IsLinked}
use yuelink_ci.Coverage.Gitlinks.Run.{add_gitlinks-IsRun}

abbrev pub source : Place
source = "source" ∷ []

abbrev pub worker : Place
worker = "worker" ∷ []

abbrev pub core : Place
core = source ++ "core" ∷ []

abbrev pub meta : Place
meta = core ++ "deps" ∷ "meta" ∷ []

-- The text of these bytes, if it is one of these.
abbrev pub find_text : Bytes → List String → Result String
find_text bytes [] = err (value_error "undecodable")
find_text bytes (s ∷ ss) = if codes s == bytes then ok s else find_text bytes ss

-- The tree of the source has the entries that are given.
abbrev pub git_with : Bytes → GitTool
git_with tree = record {
  ls_tree = λ place revision.
      if place == source
      then ok tree
      else if place == core
      then ok (codes "160000 commit two\tdeps/meta" ++ 0 ∷ [])
      else ok [];
  rev_parse_head = λ place. if place == core then ok (codes "one") else ok (codes "two");
  worktree_add = λ original target pin. ok tt;
  is_symlink = λ place. false;
  decode = λ bytes. find_text bytes ("one" ∷ "two" ∷ "core" ∷ "../core" ∷ "deps/meta" ∷ []);
  strip = λ s. s;
}

abbrev pub git : GitTool
git = git_with (codes "100644 blob three\tREADME" ++ 0 ∷ codes "160000 commit one\tcore" ++ 0 ∷ [])

add_gitlinks_lem : add_gitlinks git 9 source worker "head" [] ≡ (
  (core, "worker" ∷ "core" ∷ []) ∷ (meta, "worker" ∷ "core" ∷ "deps" ∷ "meta" ∷ []) ∷ [],
  ok tt,
)
unfolding add_gitlinks add_links parse_link link_worktree head_of path_parts words filled split_tab
    split split_text strip_prefix starts_with list_eq string_eq nat_eq
add_gitlinks_lem = refl

-- A path that leaves the source.
escaping_lem :
    add_gitlinks (git_with (codes "160000 commit one\t../core" ++ 0 ∷ [])) 9 source worker "head" []
    ≡ ([], err (value_error "Gitlink escaped the exact source tree"))
unfolding add_gitlinks add_links parse_link link_worktree head_of path_parts words filled split_tab
    split split_text strip_prefix starts_with list_eq string_eq nat_eq
escaping_lem = refl

-- The second of two levels is one too many.
too_deep_lem : add_gitlinks git 1 source worker "head" [] ≡ (
  (core, "worker" ∷ "core" ∷ []) ∷ [],
  err (value_error "recursive Gitlink depth exceeds checkout budget"),
)
unfolding add_gitlinks add_links parse_link link_worktree head_of path_parts words filled split_tab
    split split_text strip_prefix starts_with list_eq string_eq nat_eq
too_deep_lem = refl

add_gitlinks-IsRun_example :
    IsRun git source worker []
      (add_gitlinks git 9 source worker "head" [])
      (λ new. IsLinked git new source worker "head")
add_gitlinks-IsRun_example = add_gitlinks-IsRun git 9 source worker "head" []

abbrev empty : State
empty = record { workers = []; gitlinks = [] }

abbrev pub directory : ℕ → Place
directory index = if index == 0 then worker else "worker_1" ∷ []

abbrev host : Snapshot.Host
host = record {
  cpu_count = some 8;
  affinity = none;
  system = "Darwin";
  membership = none;
  meminfo = none;
  vm_stat = none;
  read = λ place name. none;
  events_missing = false;
  split = λ text. [];
  to_int = λ text. none;
}

-- Every worktree is removed but the ones that are locked.
abbrev remove : List Place → Place → Place → Option String
remove locked original target = if contains locked target then some "locked" else none

-- The paths of the worktrees of a run of two workers, in the order in which they are removed.
abbrev targets : Owned → List Place
targets [] = []
targets ((original, target) ∷ pairs) = target ∷ targets pairs

removals_lem :
    targets (
      removals git
        (λ place. ok tt)
        (remove [])
        source
        directory
        "head"
        (set_up git (λ place. ok tt) (remove []) source directory "head" (range 0 2) empty).0)
    ≡ ("worker_1" ∷ "core" ∷ "deps" ∷ "meta" ∷ [])
      ∷ ("worker_1" ∷ "core" ∷ [])
      ∷ (worker ++ "core" ∷ "deps" ∷ "meta" ∷ [])
      ∷ (worker ++ "core" ∷ [])
      ∷ worker
      ∷ ("worker_1" ∷ [])
      ∷ []
unfolding removals set_up range add_gitlinks add_links parse_link link_worktree head_of path_parts
    words filled split_tab split split_text strip_prefix starts_with list_eq string_eq nat_eq
removals_lem = refl

with_worktrees_lem :
    with_worktrees git
      (λ place. ok tt)
      (remove (worker ∷ []))
      source
      directory
      "head"
      (λ s. ok (length s.gitlinks))
      2
      host
    ≡ err (runtime_error "owned worktree cleanup failed")
unfolding with_worktrees resource_snapshot measure bases hierarchy visible_cpus host_available quota
    missing limit_of headroom root_uncontrolled decimal_text clean_up removals set_up range
    add_gitlinks add_links parse_link link_worktree head_of path_parts words filled split_tab split
    split_text strip_prefix starts_with list_eq string_eq nat_eq
with_worktrees_lem = refl
