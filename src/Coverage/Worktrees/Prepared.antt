-- ===== src/Coverage/Worktrees/Prepared.antt =====
-- What the set-up of the worktrees makes of the state, worker by worker.
use mathlib.Core.List.{append_assoc, append-nil, mem-append_left, mem-append_right}
use yuelink_ci.Prelude.{
  All-weaken, ℕ, ◌≡◌, refl, sym, ap, ◌∙◌, String, List, [], ◌∷◌, ◌++◌, map, Option, ◌⊎◌, inl, inr,
  All, All-append,
}
use yuelink_ci.Prelude.Result.{Exception, Result, ok, err, ◌>>◌}
use yuelink_ci.Coverage.Gitlinks.{Place, Owned, GitTool}
use yuelink_ci.Coverage.Gitlinks.Linked.{IsLinked, IsClosed}
use yuelink_ci.Coverage.Gitlinks.Grows.{Result-cases, IsWithin, IsLinked-grows, IsClosed-grows}
use yuelink_ci.Coverage.Gitlinks.Run.{add_gitlinks-IsRun}
use yuelink_ci.Coverage.Worktrees.{State, Reached, and_next, after_worktree, set_up}

module _ (git : GitTool) (pub_get : Place → Result (Unit {0}))
    (remove : Place → Place → Option String) (root : Place) (directory : ℕ → Place)
    (source : String) where
  -- A worker's worktree was added at the source's commit, and each Gitlink of it has its own.
  abbrev pub IsPrepared : Owned → ℕ → Type 0
  IsPrepared links index =
      (git.worktree_add root (directory index) source ≡ ok tt)
      × IsLinked git links root (directory index) source

  IsPrepared-grows :
      (less more : Owned) (indices : List ℕ)
      → IsWithin git less more
      → All (IsPrepared less) indices
      → All (IsPrepared more) indices
  IsPrepared-grows less more indices grows = All-weaken indices (λ index (added, linked).
      (added, IsLinked-grows git less more root (directory index) source grows linked))

  -- What the set-up makes of the state: an error, or a worktree for each worker.
  pub record IsSetUp (indices : List ℕ) (before : State) (called : Reached) : Type 0 where
    pub new : Owned
    pub grown : called.0.gitlinks ≡ before.gitlinks ++ new
    pub outcome :
        ((raised : Exception) × (called.1 ≡ err raised))
        ⊎ ((called.1 ≡ ok tt)
            × (called.0.workers ≡ before.workers ++ map directory indices)
            × All (IsPrepared new) indices
            × All (IsClosed git new) new)

  after_worktree-IsSetUp :
      (index : ℕ) (s : State) (r : Result (Unit {0}))
      → git.worktree_add root (directory index) source ≡ r
      → IsSetUp (index ∷ []) s (after_worktree git pub_get remove root directory source index s r)
  after_worktree-IsSetUp index s (err e) h = record {
    new = [];
    grown = sym (append-nil s.gitlinks);
    outcome = inl (e, refl);
  }
  after_worktree-IsSetUp index s (ok done) h =
      let run = add_gitlinks-IsRun git 9 root (directory index) source s.gitlinks in
      record {
        new = run.new;
        grown = run.grown;
        outcome = elim run.outcome [
          | inl (e, raised) ↦ inl (e, ap (λ r. r >> pub_get (directory index)) raised)
          | inr (ended, linked, closed) ↦ elim (Result-cases (pub_get (directory index))) [
            | inl (e, raised) ↦ inl (e, ap (λ r. r >> pub_get (directory index)) ended ∙ raised)
            | inr (u, ready) ↦ inr (
              ap (λ r. r >> pub_get (directory index)) ended ∙ ready,
              refl,
              ((h, linked), tt),
              closed,
            )
          ]
        ];
      }

  and_next-IsSetUp :
      (index : ℕ) (indices : List ℕ) (s : State) (called : Reached) (next : State → Reached)
      → IsSetUp (index ∷ []) s called
      → ((grown : State) → IsSetUp indices grown (next grown))
      → IsSetUp (index ∷ indices) s (and_next called next)
  and_next-IsSetUp index indices s (grown, err e) next one rest = record {
    new = one.new;
    grown = one.grown;
    outcome = inl (e, refl);
  }
  and_next-IsSetUp index indices s (grown, ok done) next one rest =
      let more = rest grown in
      let left : IsWithin git one.new (one.new ++ more.new) =
        λ x member. mem-append_left more.new member in
      let right : IsWithin git more.new (one.new ++ more.new) =
        λ x member. mem-append_right one.new member in
      record {
        new = one.new ++ more.new;
        grown =
            more.grown
            ∙ ap (λ l. l ++ more.new) one.grown
            ∙ append_assoc s.gitlinks one.new more.new;
        outcome = elim one.outcome [
          | inl (e, raised) ↦ cc
          | inr (_, workers, prepared, closed) ↦ elim more.outcome [
            | inl raised ↦ inl raised
            | inr (ended, others, others_prepared, others_closed) ↦ inr (
              ended,
              others
                  ∙ ap (λ l. l ++ map directory indices) workers
                  ∙ append_assoc s.workers (directory index ∷ []) (map directory indices),
              (
                (IsPrepared-grows one.new (one.new ++ more.new) (index ∷ []) left prepared).0,
                IsPrepared-grows more.new (one.new ++ more.new) indices right others_prepared,
              ),
              All-append (IsClosed git (one.new ++ more.new)) one.new more.new
                  (IsClosed-grows git one.new (one.new ++ more.new) one.new left closed)
                  (IsClosed-grows git more.new (one.new ++ more.new) more.new right others_closed),
            )
          ]
        ];
      }

  pub set_up-IsSetUp :
      (indices : List ℕ) (s : State)
      → IsSetUp indices s (set_up git pub_get remove root directory source indices s)
  unfolding set_up
  set_up-IsSetUp [] s = record {
    new = [];
    grown = sym (append-nil s.gitlinks);
    outcome = inr (refl, sym (append-nil s.workers), tt, tt);
  }
  set_up-IsSetUp (index ∷ indices) s =
      and_next-IsSetUp index indices s _ _
        (after_worktree-IsSetUp index s (git.worktree_add root (directory index) source) refl)
        (λ grown. set_up-IsSetUp indices grown)
