-- ===== src/Coverage/Gitlinks/Grows.antt =====
-- Lemmas on the worktrees that a list holds: more of them, and deeper ones.
use mathlib.Core.List.{append_assoc, Mem}
use yuelink_ci.Prelude.{
  ◌≡◌, refl, ◌∙◌, String, false, ◌++◌, ◌⊎◌, inl, inr, split, contains, contains-append, string_eq,
  All, All-weaken, arith,
}
use yuelink_ci.Prelude.Result.{Exception, Result, ok, err}
use yuelink_ci.Coverage.Gitlinks.{Place, Bytes, Owned, GitTool}
use yuelink_ci.Coverage.Gitlinks.Linked.{path_of, IsMirror, IsCovered, IsLinked, IsClosed}

pub Result-cases :
    {A : Type 0} (r : Result A) → ((e : Exception) × (r ≡ err e)) ⊎ ((a : A) × (r ≡ ok a))
Result-cases (err e) = inl (e, refl)
Result-cases (ok a) = inr (a, refl)

module _ (git : GitTool) where
  pub IsMirror-deeper :
      (source worker path : Place) (pair : Place × Place)
      → contains path ".." ≡ false
      → IsMirror git (source ++ path) (worker ++ path) pair
      → IsMirror git source worker pair
  IsMirror-deeper source worker path pair inside m = record {
    path = path ++ m.path;
    inside = ground (arith, contains-append path m.path "..", inside, m.inside);
    original = m.original ∙ append_assoc source path m.path;
    target = m.target ∙ append_assoc worker path m.path;
    pin = m.pin;
    head = m.head;
    added = m.added;
  }

  abbrev pub IsWithin : Owned → Owned → Type 0
  IsWithin some_owned owned = (x : Place × Place) → Mem x some_owned → Mem x owned

  pub IsCovered-grows :
      (less more : Owned) (source worker : Place) (entry : Bytes)
      → IsWithin less more
      → IsCovered git less source worker entry
      → IsCovered git more source worker entry
  IsCovered-grows less more source worker entry grows (inl other) = inl other
  IsCovered-grows less more source worker entry grows (inr (link, parsed, head, member)) =
      inr (link, parsed, head, grows (source ++ path_of link, worker ++ path_of link) member)

  pub IsLinked-grows :
      (less more : Owned) (source worker : Place) (revision : String)
      → IsWithin less more
      → IsLinked git less source worker revision
      → IsLinked git more source worker revision
  IsLinked-grows less more source worker revision grows (tree, listed, covered) = (
    tree,
    listed,
    All-weaken (split 0 tree) (λ entry. IsCovered-grows less more source worker entry grows)
        covered,
  )

  pub IsClosed-grows :
      (less more : Owned) (pairs : Owned)
      → IsWithin less more
      → All (IsClosed git less) pairs
      → All (IsClosed git more) pairs
  IsClosed-grows less more pairs grows = All-weaken pairs (λ pair (pin, head, linked).
      (pin, head, IsLinked-grows less more pair.0 pair.1 pin grows linked))
