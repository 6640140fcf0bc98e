-- ===== src/Coverage/Worktrees/Removed.antt =====
-- The worktrees are complete when the groups run, and are removed at the end.
use yuelink_ci.Prelude.{
  ℕ, ◌≡◌, sym, subst, ◌∙◌, String, List, [], ◌∷◌, map, Option, none, ◌⊎◌, inl, inr, All,
}
use yuelink_ci.Prelude.Result.{Exception, Result, ok, err, runtime_error, ◌>>◌, >>=-eq-ok}
use yuelink_ci.Coverage.Gitlinks.{Place, Owned, GitTool}
use yuelink_ci.Coverage.Gitlinks.Linked.{IsClosed}
use yuelink_ci.Coverage.Main.{range}
use yuelink_ci.Coverage.Snapshot
use yuelink_ci.Coverage.Snapshot.{resource_snapshot}
use yuelink_ci.Coverage.Worktrees.Prepared.{IsPrepared, set_up-IsSetUp}
use yuelink_ci.Coverage.Worktrees.{State, or_failed, removals, clean_up, reached, with_worktrees}

or_failed-ok :
    {A : Type 0} (errors : List String) (outcome : Result A) (value : A)
    → or_failed errors outcome ≡ ok value
    → outcome ≡ ok value
or_failed-ok [] outcome value h = h
or_failed-ok (e ∷ errors) outcome value h = cc

module _ (git : GitTool) (pub_get : Place → Result (Unit {0}))
    (remove : Place → Place → Option String) (root : Place) (directory : ℕ → Place)
    (source : String) where
  abbrev pub IsRemoved : Place × Place → Type 0
  IsRemoved (original, target) = remove original target ≡ none

  -- All worktrees that the state has are removed.
  abbrev pub AreRemoved : State → Type 0
  AreRemoved s = All IsRemoved s.gitlinks × All (λ worker. IsRemoved (root, worker)) s.workers

  module _ {A : Type 0} (body : State → Result A) (capacity : ℕ) (later : Snapshot.Host) where
    abbrev state : State
    state = (reached git pub_get remove root directory source body capacity later).0

    abbrev started : Result (Unit {0})
    started = (reached git pub_get remove root directory source body capacity later).1

    abbrev pairs_of_state : Owned
    pairs_of_state = removals git pub_get remove root directory source state

    abbrev errors : List String
    errors = clean_up git pub_get remove root directory source pairs_of_state

    abbrev result : Result A
    result = with_worktrees git pub_get remove root directory source body capacity later

    -- How the `try` statement ends: the snapshot at its end raised, or each worktree was removed, or
    -- one was not and that is the error.
    pub record IsOver : Type 0 where
      pub removed :
          ((raised : Exception) × (resource_snapshot later ≡ err raised) × (result ≡ err raised))
          ⊎ (result ≡ err (runtime_error "owned worktree cleanup failed")) × ¬ AreRemoved state
          ⊎ AreRemoved state
      pub whole :
          ((raised : Exception) × (result ≡ err raised))
          ⊎ ((value : A) × (result ≡ ok value)
              × (body state ≡ ok value)
              × (state.workers ≡ map directory (range 0 capacity))
              × All
                  (IsPrepared git pub_get remove root directory source state.gitlinks)
                  (range 0 capacity)
              × All (IsClosed git state.gitlinks) state.gitlinks)

    whole_of :
        (value : A)
        → result ≡ ok value
        → (body state ≡ ok value)
          × (state.workers ≡ map directory (range 0 capacity))
          × All
              (IsPrepared git pub_get remove root directory source state.gitlinks)
              (range 0 capacity)
          × All (IsClosed git state.gitlinks) state.gitlinks
    unfolding with_worktrees
    whole_of value h =
        let (resources, seen, h1) = >>=-eq-ok (resource_snapshot later) _ h in
        let (u, ready, ran) =
          >>=-eq-ok started (λ done. body state)
            (or_failed-ok errors (started >> body state) value h1) in
        let run =
          set_up-IsSetUp git pub_get remove root directory source (range 0 capacity)
            (record { workers = []; gitlinks = [] }) in
        elim run.outcome [
          | inl (e, raised) ↦ let both = sym raised ∙ ready in cc (both)
          | inr (ended, workers, prepared, closed) ↦ (
            ran,
            workers,
            subst
                (λ links.
                  All (IsPrepared git pub_get remove root directory source links)
                    (range 0 capacity))
                (sym run.grown) prepared,
            subst (λ links. All (IsClosed git links) links) (sym run.grown) closed,
          )
        ]

    -- What the groups gave is what the statement gives.
    pub with_worktrees-ran : (value : A) → result ≡ ok value → body state ≡ ok value
    with_worktrees-ran value h = (whole_of value h).0
