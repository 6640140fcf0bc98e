-- ===== src/Coverage/Worktrees.antt =====
-- What `main` does before and after the groups run: it adds a worktree for each worker, with those of
-- its submodules, and at the end removes what it added, whatever happened.
pub mod Prepared
pub mod Removed
use mathlib.Core.List.{reverse}
use yuelink_ci.Prelude.{ℕ, String, List, [], ◌∷◌, ◌++◌, map, Option, none, some}
use yuelink_ci.Prelude.Result.{Result, ok, err, runtime_error, ◌>>=◌, ◌>>◌}
use yuelink_ci.Coverage.Gitlinks.{Place, Owned, GitTool, add_gitlinks}
use yuelink_ci.Coverage.Snapshot
use yuelink_ci.Coverage.Snapshot.{resource_snapshot}
use yuelink_ci.Coverage.Main.{range}

-- `workers` and `gitlinks`
pub record State : Type 0 where
  pub workers : List Place
  pub gitlinks : Owned

-- The state, and how the statements ended.
abbrev pub Reached : Type 0
Reached = State × Result (Unit {0})

abbrev pub or_failed {ℓ} : {A : Type ℓ} → List String → Result A → Result A
or_failed [] outcome = outcome
or_failed (error ∷ errors) outcome = err (runtime_error "owned worktree cleanup failed")

-- What follows statements that ended without an error.
abbrev pub and_next : Reached → (State → Reached) → Reached
and_next (s, err raised) next = (s, err raised)
and_next (s, ok done) next = next s

-- `pub_get` runs `flutter pub get` in a worker, and `remove` runs `git worktree remove` in a checkout
-- and gives the text of the error that `main` catches. `directory` is `source-{index}`.
module _ (git : GitTool) (pub_get : Place → Result (Unit {0}))
    (remove : Place → Place → Option String) (root : Place) (directory : ℕ → Place)
    (source : String) where
  -- The loop's statements behind the first, whose end is given.
  abbrev pub after_worktree : ℕ → State → Result (Unit {0}) → Reached
  after_worktree index s (err raised) = (s, err raised)
  after_worktree index s (ok done) =
      let (links, linked) = add_gitlinks git 9 root (directory index) source s.gitlinks in
      (
        record { workers = s.workers ++ directory index ∷ []; gitlinks = links },
        linked >> pub_get (directory index),
      )

  unfoldable pub set_up : List ℕ → State → Reached
  set_up [] s = (s, ok tt)
  set_up (index ∷ indices) s =
      and_next (after_worktree index s (git.worktree_add root (directory index) source))
        (λ grown. set_up indices grown)

  -- `[*reversed(gitlinks), *((root, worker) for worker in workers)]`
  unfoldable pub removals : State → Owned
  removals s = reverse s.gitlinks ++ map (λ worker. (root, worker)) s.workers

  -- `cleanup_errors`
  unfoldable pub clean_up : Owned → List String
  clean_up [] = []
  clean_up ((original, target) ∷ pairs) =
      let later = clean_up pairs in
      elim (remove original target) [ none ↦ later | some error ↦ error ∷ later ]

  module _ {ℓ} {A : Type ℓ} (body : State → Result A) (capacity : ℕ) (later : Snapshot.Host) where
    -- The state when the groups may run.
    abbrev pub reached : Reached
    reached = set_up (range 0 capacity) (record { workers = []; gitlinks = [] })

    -- The `try` statement, its `finally` with it. `body` is what stands behind the set-up, and
    -- `later` is the host at the end.
    unfoldable pub with_worktrees : Result A
    with_worktrees = do
      resources_after ← resource_snapshot later
      or_failed (clean_up (removals reached.0)) (reached.1 >> body reached.0)
