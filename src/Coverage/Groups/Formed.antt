-- ===== src/Coverage/Groups/Formed.antt =====
-- The inner loop of `directory_groups`: every group that it makes passes the tests of one group.
use yuelink_ci.Prelude.{◌<◌, ◌≤◌, ◌≡◌, refl, inl, inr, Bool-cases, String, false, not, ◌&&◌}
use yuelink_ci.Prelude.{
  List, [], ◌∷◌, ◌++◌, map, length, length-append, any, All, All-append, arith,
}
use yuelink_ci.Prelude.{◌==◌, contains, string_eq, nat_eq, list_eq}
use yuelink_ci.Coverage.Groups.{Chunk, flush, cut, place, place_all, place_bucket, set_of}
use yuelink_ci.Coverage.Groups.{is_malformed}

module _ (parent : String → String) (isolated : List String) where
  -- The two tests that `assert_directory_groups` makes of one group.
  pub record IsGroup (group : List String) : Type 0 where
    pub alone : any (λ path. contains isolated path && not (group == path ∷ [])) group ≡ false
    pub formed : is_malformed parent group ≡ false

  abbrev IsPlain : String → String → Type 0
  IsPlain dir q = (contains isolated q ≡ false) × (parent q ≡ dir)

  plain_alone :
      (dir : String) (group paths : List String)
      → All (IsPlain dir) paths
      → any (λ path. contains isolated path && not (group == path ∷ [])) paths ≡ false
  plain_alone dir group [] h = refl
  plain_alone dir group (p ∷ ps) h = rw h.0.0 (plain_alone dir group ps h.1)

  plain_parents :
      (dir p : String) (ps : List String)
      → All (IsPlain dir) (p ∷ ps)
      → set_of (map parent (p ∷ ps)) ≡ dir ∷ []
  unfolding set_of
  plain_parents dir p [] h = rw h.0.1
  plain_parents dir p (q ∷ ps) h = rw (plain_parents dir q ps h.1) (ground (arith, h.0.1))

  plain-IsGroup :
      (dir p : String) (ps : List String)
      → All (IsPlain dir) (p ∷ ps)
      → length (p ∷ ps) ≤ 8
      → IsGroup (p ∷ ps)
  unfolding is_malformed
  plain-IsGroup dir p ps h k = record {
    alone = plain_alone dir (p ∷ ps) (p ∷ ps) h;
    formed = rw (plain_parents dir p ps h) (ground arith);
  }

  single-IsGroup : (p : String) → IsGroup (p ∷ [])
  unfolding is_malformed set_of
  single-IsGroup p = record { alone = ground arith; formed = ground arith }

  record IsOpen (dir : String) (c : Chunk) : Type 0 where
    closed : All IsGroup c.groups
    short : length c.ordinary < 8
    plain : All (IsPlain dir) c.ordinary

  flush-IsGroup :
      (dir : String) (c : Chunk) → IsOpen dir c → All IsGroup (flush c.groups c.ordinary)
  flush-IsGroup dir c h = go c.ordinary h.short h.plain
    where
      go :
          (ordinary : List String)
          → length ordinary < 8
          → All (IsPlain dir) ordinary
          → All IsGroup (flush c.groups ordinary)
      go [] short plain = h.closed
      go (p ∷ ps) short plain =
          All-append IsGroup c.groups ((p ∷ ps) ∷ []) h.closed
            (plain-IsGroup dir p ps plain (omega arith), tt)

  cut-IsOpen :
      (dir : String) (groups : List (List String)) (p : String) (ps : List String)
      → All IsGroup groups
      → All (IsPlain dir) (p ∷ ps)
      → length (p ∷ ps) ≤ 8
      → IsOpen dir (cut (record { groups = groups; ordinary = p ∷ ps }))
  cut-IsOpen dir groups p ps h plain k = elim (Bool-cases (length (p ∷ ps) == 8)) [
    | inl full ↦ rw full (record {
      closed = All-append IsGroup groups ((p ∷ ps) ∷ []) h (plain-IsGroup dir p ps plain k, tt);
      short = omega arith;
      plain = tt;
    })
    | inr room ↦ rw room (record { closed = h; short = ground arith; plain = plain })
  ]

  place-IsOpen :
      (dir : String) (c : Chunk) (path : String)
      → IsOpen dir c
      → parent path ≡ dir
      → IsOpen dir (place isolated c path)
  unfolding place
  place-IsOpen dir c path h e = elim (Bool-cases (contains isolated path)) [
    | inl alone ↦ rw alone (record {
      closed =
          All-append IsGroup (flush c.groups c.ordinary) ((path ∷ []) ∷ []) (flush-IsGroup dir c h)
            (single-IsGroup path, tt);
      short = omega arith;
      plain = tt;
    })
    | inr free ↦ rw free (add c.ordinary h.short h.plain free)
  ]
    where
      add :
          (ordinary : List String)
          → length ordinary < 8
          → All (IsPlain dir) ordinary
          → contains isolated path ≡ false
          → IsOpen dir (cut (record { groups = c.groups; ordinary = ordinary ++ path ∷ [] }))
      add [] short plain free =
          cut-IsOpen dir c.groups path [] h.closed ((free, e), tt) (omega arith)
      add (p ∷ ps) short plain free =
          cut-IsOpen dir c.groups p (ps ++ path ∷ []) h.closed
            (plain.0, All-append (IsPlain dir) ps (path ∷ []) plain.1 ((free, e), tt))
            (omega (arith, length-append ps (path ∷ [])))

  place_all-IsOpen :
      (dir : String) (c : Chunk) (paths : List String)
      → IsOpen dir c
      → All (λ q. parent q ≡ dir) paths
      → IsOpen dir (place_all isolated c paths)
  unfolding place_all
  place_all-IsOpen dir c [] h e = h
  place_all-IsOpen dir c (path ∷ paths) h e =
      place_all-IsOpen dir (place isolated c path) paths (place-IsOpen dir c path h e.0) e.1

  -- The groups of one directory's bucket are well formed.
  pub place_bucket-IsGroup :
      (dir : String) (groups : List (List String)) (paths : List String)
      → All IsGroup groups
      → All (λ q. parent q ≡ dir) paths
      → All IsGroup (place_bucket isolated groups paths)
  unfolding place_bucket
  place_bucket-IsGroup dir groups paths h e =
      let c : Chunk = record { groups = groups; ordinary = [] } in
      flush-IsGroup dir (place_all isolated c paths)
        (place_all-IsOpen dir c paths (record { closed = h; short = omega arith; plain = tt }) e)
