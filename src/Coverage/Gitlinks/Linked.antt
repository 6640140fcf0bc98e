-- ===== src/Coverage/Gitlinks/Linked.antt =====
-- The worktrees that `add_gitlinks` adds: where they stand, at which commits, and that none is missing.
use mathlib.Core.List.{Mem}
use yuelink_ci.Prelude.{
  ◌≡◌, String, false, ◌++◌, none, some, ◌⊎◌, split, split_text, contains, string_eq, All,
}
use yuelink_ci.Prelude.Result.{Exception, ok, err}
use yuelink_ci.Coverage.Gitlinks.{
  Place, Bytes, Owned, GitTool, Link, Added, path_parts, parse_link, head_of,
}

abbrev pub path_of : Link → Place
path_of (pin, path) = path_parts (split_text b'/' path)

module _ (git : GitTool) where
  -- A worktree stands in the worker where its checkout stands in the source, and was added at the
  -- commit that the checkout is at.
  pub record IsMirror (source worker : Place) (pair : Place × Place) : Type 0 where
    pub path : Place
    pub inside : contains path ".." ≡ false
    pub original : pair.0 ≡ source ++ path
    pub target : pair.1 ≡ worker ++ path
    pub pin : String
    pub head : head_of git pair.0 ≡ ok pin
    pub added : git.worktree_add pair.0 pair.1 pin ≡ ok tt

  -- A record of the tree has its worktree, at the commit that the record names, if it is a Gitlink.
  abbrev pub IsCovered : Owned → Place → Place → Bytes → Type 0
  IsCovered owned source worker entry =
      (parse_link git entry ≡ ok none)
      ⊎ ((link : Link) × (parse_link git entry ≡ ok (some link))
          × (head_of git (source ++ path_of link) ≡ ok link.0)
          × Mem (source ++ path_of link, worker ++ path_of link) owned)

  -- Each Gitlink of the tree of a commit has its worktree.
  abbrev pub IsLinked : Owned → Place → Place → String → Type 0
  IsLinked owned source worker revision =
      (tree : Bytes) × (git.ls_tree source revision ≡ ok tree)
      × All (IsCovered owned source worker) (split 0 tree)

  -- And so has each Gitlink of a worktree's commit.
  abbrev pub IsClosed : Owned → Place × Place → Type 0
  IsClosed owned pair =
      (pin : String) × (head_of git pair.0 ≡ ok pin) × IsLinked owned pair.0 pair.1 pin

  -- What a call leaves: it adds mirrors to the list, and if it returns, what it owes holds of them.
  pub record IsRun (source worker : Place) (before : Owned) (called : Added) (Done : Owned → Type 0)
      : Type 0 where
    pub new : Owned
    pub grown : called.0 ≡ before ++ new
    pub mirrored : All (IsMirror source worker) new
    pub outcome :
        ((raised : Exception) × (called.1 ≡ err raised))
        ⊎ ((called.1 ≡ ok tt) × Done new × All (IsClosed new) new)
