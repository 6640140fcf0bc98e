-- ===== src/Coverage/Gitlinks/Opened.antt =====
-- One Gitlink of the tree: what its worktree is, and what the rest of the loop adds to it.
use mathlib.Core.List.{
  append_assoc, mem-cons_self, mem-cons_of_mem, mem-append_left, mem-append_right,
}
use yuelink_ci.Prelude.{
  All-weaken, ◌≡◌, refl, ap, ◌∙◌, String, true, false, [], ◌∷◌, ◌++◌, some, inl, inr, contains,
  ◌==◌, ==→eq, string_eq, All, All-append, arith,
}
use yuelink_ci.Prelude.Result.{ok, err, value_or}
use yuelink_ci.Coverage.Gitlinks.{
  Place, Bytes, Owned, GitTool, Link, Added, and_then, parse_link, head_of, link_worktree,
}
use yuelink_ci.Coverage.Gitlinks.Grows.{IsMirror-deeper, IsWithin, IsLinked-grows, IsClosed-grows}
use yuelink_ci.Coverage.Gitlinks.Linked.{path_of, IsMirror, IsCovered, IsLinked, IsClosed, IsRun}

module _ (git : GitTool) where
  module _ (source worker : Place) where
    abbrev pub pair_of : Link → Place × Place
    pair_of link = (source ++ path_of link, worker ++ path_of link)

    -- What was established of a record when its worktree was added.
    pub record IsOpened (link : Link) : Type 0 where
      pub inside : contains (path_of link) ".." ≡ false
      pub head : head_of git (pair_of link).0 ≡ ok link.0
      pub added : git.worktree_add (pair_of link).0 (pair_of link).1 link.0 ≡ ok tt

    pub link_worktree-IsOpened :
        (link : Link) (pair : Place × Place)
        → link_worktree git source worker link ≡ ok pair
        → (pair ≡ pair_of link) × IsOpened link
    unfolding link_worktree
    link_worktree-IsOpened (pin, path) pair h =
        let original : Place = source ++ path_of (pin, path) in
        let observed : String = value_or "" (head_of git original) in
        let known : head_of git original ≡ ok observed = ground arith in
        let equal : (observed == pin) ≡ true = ground arith in
        (
          ground arith,
          record {
            inside = ground arith;
            head = known ∙ ap ok (==→eq observed pin equal);
            added = ground arith;
          },
        )

    IsOpened-IsMirror : (link : Link) → IsOpened link → IsMirror git source worker (pair_of link)
    IsOpened-IsMirror link o = record {
      path = path_of link;
      inside = o.inside;
      original = refl;
      target = refl;
      pin = link.0;
      head = o.head;
      added = o.added;
    }

    deeper-IsMirror :
        (link : Link) (pairs : Owned)
        → IsOpened link
        → All (IsMirror git (pair_of link).0 (pair_of link).1) pairs
        → All (IsMirror git source worker) (pair_of link ∷ pairs)
    deeper-IsMirror link pairs o mirrored = (
      IsOpened-IsMirror link o,
      All-weaken pairs (λ pair. IsMirror-deeper git source worker (path_of link) pair o.inside)
          mirrored,
    )

    -- One Gitlink with what is below it, and the rest of the loop.
    pub after-IsRun :
        (link : Link) (entry : Bytes) (owned : Owned) (called : Added) (next : Owned → Added)
        (Rest : Owned → Type 0)
        → ((less more : Owned) → IsWithin git less more → Rest less → Rest more)
        → parse_link git entry ≡ ok (some link)
        → IsOpened link
        → IsRun git
            (pair_of link).0
            (pair_of link).1
            (owned ++ pair_of link ∷ [])
            called
            (λ new. IsLinked git new (pair_of link).0 (pair_of link).1 link.0)
        → ((grown : Owned) → IsRun git source worker grown (next grown) Rest)
        → IsRun git source worker owned
            (and_then called next)
            (λ new. IsCovered git new source worker entry × Rest new)
    after-IsRun link entry owned (grown, err e) next Rest grows parsed o run rest = record {
      new = pair_of link ∷ run.new;
      grown = run.grown ∙ append_assoc owned (pair_of link ∷ []) run.new;
      mirrored = deeper-IsMirror link run.new o run.mirrored;
      outcome = inl (e, refl);
    }
    after-IsRun link entry owned (grown, ok done) next Rest grows parsed o run rest =
        let more = rest grown in
        let pair = pair_of link in
        let left : IsWithin git run.new (pair ∷ (run.new ++ more.new)) =
          λ x member. mem-cons_of_mem pair (mem-append_left more.new member) in
        let right : IsWithin git more.new (pair ∷ (run.new ++ more.new)) =
          λ x member. mem-cons_of_mem pair (mem-append_right run.new member) in
        record {
          new = pair ∷ (run.new ++ more.new);
          grown =
              more.grown
              ∙ ap (λ l. l ++ more.new) run.grown
              ∙ append_assoc (owned ++ pair ∷ []) run.new more.new
              ∙ append_assoc owned (pair ∷ []) (run.new ++ more.new);
          mirrored = (
            IsOpened-IsMirror link o,
            All-append (IsMirror git source worker) run.new more.new
                (deeper-IsMirror link run.new o run.mirrored).1 more.mirrored,
          );
          outcome = elim run.outcome [
            | inl (e, raised) ↦ cc
            | inr (_, linked, closed) ↦ elim more.outcome [
              | inl raised ↦ inl raised
              | inr (ended, others, others_closed) ↦ inr (
                ended,
                (
                  inr (link, parsed, o.head, mem-cons_self),
                  grows more.new (pair ∷ (run.new ++ more.new)) right others,
                ),
                (
                  (link.0, o.head, IsLinked-grows git run.new _ pair.0 pair.1 link.0 left linked),
                  All-append (IsClosed git (pair ∷ (run.new ++ more.new))) run.new more.new
                      (IsClosed-grows git run.new _ run.new left closed)
                      (IsClosed-grows git more.new _ more.new right others_closed),
                ),
              )
            ]
          ];
        }
