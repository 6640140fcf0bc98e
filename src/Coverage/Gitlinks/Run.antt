-- ===== src/Coverage/Gitlinks/Run.antt =====
-- `add_gitlinks` adds worktrees of the source's Gitlinks only, and, if it returns, of all of them.
use mathlib.Core.List.{append-nil}
use yuelink_ci.Prelude.{
  All-weaken, ℕ, zero, suc, ◌≡◌, refl, sym, ap, subst, ◌∙◌, String, List, [], ◌∷◌, ◌++◌, none, some,
  inl, inr, split, string_eq, All,
}
use yuelink_ci.Prelude.Result.{Exception, ok, err}
use yuelink_ci.Coverage.Gitlinks.{
  Place, Bytes, Owned, GitTool, Link, Added, and_then, parse_link, link_worktree, add_links,
  add_gitlinks,
}
use yuelink_ci.Coverage.Gitlinks.Grows.{Result-cases, IsCovered-grows}
use yuelink_ci.Coverage.Gitlinks.Linked.{IsCovered, IsLinked, IsRun}
use yuelink_ci.Coverage.Gitlinks.Opened.{pair_of, link_worktree-IsOpened, after-IsRun}

module _ (git : GitTool) where
  module _ (source worker : Place) where
    stopped :
        (owned : Owned) (e : Exception) (Done : Owned → Type 0)
        → IsRun git source worker owned (owned, err e) Done
    stopped owned e Done = record {
      new = [];
      grown = sym (append-nil owned);
      mirrored = tt;
      outcome = inl (e, refl);
    }

    along :
        (owned : Owned) (called other : Added) (Done : Owned → Type 0)
        → called ≡ other
        → IsRun git source worker owned other Done
        → IsRun git source worker owned called Done
    along owned called other Done same run =
        subst (λ a. IsRun git source worker owned a Done) (sym same) run

    module _ (deeper : Place → Place → String → Owned → Added) (entry : Bytes)
        (entries : List Bytes) (owned : Owned) where
      unread :
          (e : Exception)
          → parse_link git entry ≡ err e
          → add_links git deeper source worker (entry ∷ entries) owned ≡ (owned, err e)
      unfolding add_links
      unread e parsed = rw (add_links, parsed) refl

      other :
          parse_link git entry ≡ ok none
          → add_links git deeper source worker (entry ∷ entries) owned
            ≡ add_links git deeper source worker entries owned
      unfolding add_links
      other parsed = rw (add_links, parsed) refl

      refused :
          (link : Link) (e : Exception)
          → parse_link git entry ≡ ok (some link)
          → link_worktree git source worker link ≡ err e
          → add_links git deeper source worker (entry ∷ entries) owned ≡ (owned, err e)
      unfolding add_links
      refused link e parsed raised = rw (add_links, parsed, raised) refl

      opened :
          (link : Link)
          → parse_link git entry ≡ ok (some link)
          → link_worktree git source worker link ≡ ok (pair_of git source worker link)
          → add_links git deeper source worker (entry ∷ entries) owned
            ≡ and_then
                (deeper
                  (pair_of git source worker link).0
                  (pair_of git source worker link).1
                  link.0
                  (owned ++ pair_of git source worker link ∷ []))
                (λ grown. add_links git deeper source worker entries grown)
      unfolding add_links
      opened link parsed returned = rw (add_links, parsed, returned) refl

    add_links-IsRun :
        (deeper : Place → Place → String → Owned → Added)
        → ((original target : Place) (revision : String) (owned : Owned)
            → IsRun git original target owned
                (deeper original target revision owned)
                (λ new. IsLinked git new original target revision))
        → (entries : List Bytes) (owned : Owned)
        → IsRun git source worker owned
            (add_links git deeper source worker entries owned)
            (λ new. All (IsCovered git new source worker) entries)
    unfolding add_links
    add_links-IsRun deeper run [] owned = record {
      new = [];
      grown = sym (append-nil owned);
      mirrored = tt;
      outcome = inr (refl, tt, tt);
    }
    add_links-IsRun deeper run (entry ∷ entries) owned =
        let Done : Owned → Type 0 =
          λ new. All (IsCovered git new source worker) (entry ∷ entries) in
        elim (Result-cases (parse_link git entry)) [
          | inl (e, parsed) ↦
              along owned _ (owned, err e) Done (unread deeper entry entries owned e parsed)
                (stopped owned e Done)
          | inr (none, parsed) ↦
              let rest = add_links-IsRun deeper run entries owned in
              along owned _ (add_links git deeper source worker entries owned) Done
                (other deeper entry entries owned parsed)
                (record {
                  new = rest.new;
                  grown = rest.grown;
                  mirrored = rest.mirrored;
                  outcome = elim rest.outcome [
                    | inl raised ↦ inl raised
                    | inr (ended, covered, closed) ↦ inr (ended, (inl parsed, covered), closed)
                  ];
                })
          | inr (some link, parsed) ↦ elim (Result-cases (link_worktree git source worker link)) [
            | inl (e, raised) ↦
                along owned _ (owned, err e) Done
                  (refused deeper entry entries owned link e parsed raised) (stopped owned e Done)
            | inr (pair, returned) ↦
                let (same, o) = link_worktree-IsOpened git source worker link pair returned in
                along owned _
                  (and_then
                    (deeper (pair_of git source worker link).0 (pair_of git source worker link).1
                      link.0 (owned ++ pair_of git source worker link ∷ []))
                    (λ grown. add_links git deeper source worker entries grown))
                  Done (opened deeper entry entries owned link parsed (returned ∙ ap ok same))
                  (after-IsRun git source worker link entry owned _ _
                    (λ new. All (IsCovered git new source worker) entries)
                    (λ less more grows.
                      All-weaken entries (λ x. IsCovered-grows git less more source worker x grows))
                    parsed o
                    (run (pair_of git source worker link).0 (pair_of git source worker link).1
                      link.0 (owned ++ pair_of git source worker link ∷ []))
                    (λ grown. add_links-IsRun deeper run entries grown))
          ]
        ]

  unlisted_eq :
      (depths : ℕ) (source worker : Place) (revision : String) (owned : Owned) (e : Exception)
      → git.ls_tree source revision ≡ err e
      → add_gitlinks git (suc depths) source worker revision owned ≡ (owned, err e)
  unfolding add_gitlinks
  unlisted_eq depths source worker revision owned e h = rw (add_gitlinks, h) refl

  listed_eq :
      (depths : ℕ) (source worker : Place) (revision : String) (owned : Owned) (tree : Bytes)
      → git.ls_tree source revision ≡ ok tree
      → add_gitlinks git (suc depths) source worker revision owned
        ≡ add_links git (add_gitlinks git depths) source worker (split 0 tree) owned
  unfolding add_gitlinks
  listed_eq depths source worker revision owned tree h = rw (add_gitlinks, h) refl

  -- However it ends, `add_gitlinks` only adds to the list, and each worktree that it lists stands in
  -- the worker where its checkout stands in the source, with no ".." between, and was added at the
  -- commit that its checkout is at. Either it raises, or each Gitlink of the revision's tree, and of
  -- the trees of the commits so added, has its worktree in what was added.
  pub add_gitlinks-IsRun :
      (depths : ℕ) (source worker : Place) (revision : String) (owned : Owned)
      → IsRun git source worker owned
          (add_gitlinks git depths source worker revision owned)
          (λ new. IsLinked git new source worker revision)
  unfolding add_gitlinks
  add_gitlinks-IsRun zero source worker revision owned = stopped source worker owned _ _
  add_gitlinks-IsRun (suc depths) source worker revision owned =
      elim (Result-cases (git.ls_tree source revision)) [
        | inl (e, unlisted) ↦
            along source worker owned _ (owned, err e) _
              (unlisted_eq depths source worker revision owned e unlisted)
              (stopped source worker owned e _)
        | inr (tree, listed) ↦
            let run =
              add_links-IsRun source worker (add_gitlinks git depths) (add_gitlinks-IsRun depths)
                (split 0 tree) owned in
            along source worker owned _ _ _
              (listed_eq depths source worker revision owned tree listed)
              (record {
                new = run.new;
                grown = run.grown;
                mirrored = run.mirrored;
                outcome = elim run.outcome [
                  | inl raised ↦ inl raised
                  | inr (ended, covered, closed) ↦ inr (ended, (tree, listed, covered), closed)
                ];
              })
      ]
