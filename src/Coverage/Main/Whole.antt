-- ===== src/Coverage/Main/Whole.antt =====
-- What a run that completes has executed.
use mathlib.Core.Option.{some-injective}
use mathlib.Core.List.{Mem, mem-cons_self, mem-cons_of_mem, flatten}
use yuelink_ci.Prelude.{
  ℕ, zero, suc, ◌+◌, ◌≤◌, ◌<◌, ◌≡◌, refl, sym, ap, subst, ◌∙◌, String, not, List, [], ◌∷◌, some,
  map, All, All-append, length, get_elem?, arith, ◌==◌, ==→eq, string_eq, nat_eq, list_eq,
  if◌then◌else◌, Bool-cases, inl, inr,
}
use yuelink_ci.Prelude.Result.{ok, err, process_error, raise_if, value_or, >>=-eq-ok}
use yuelink_ci.MachineCount.{enforce_floor}
use yuelink_ci.Coverage.Cases.{Case}
use yuelink_ci.Coverage.Worker.{Library, ExecutionMode, Completed}
use yuelink_ci.Coverage.Worker.Runs.{IsRunOf, execute-IsRunOf}
use yuelink_ci.Coverage.Union.{Summary, summarize, case_union, count_case, sum_counts}
use yuelink_ci.Coverage.Main.{
  Environment, Outcome, work, collect, run, nonempty, differs, is_nil, enumerate, sorted, range,
  sum,
}
use yuelink_ci.Coverage.Main.Dealt.{enumerate-IsPlaced, All-stride, tally, sorted-tally}

sum_counts-count_case :
    (c : Case) (counted : List (Case × ℕ))
    → sum_counts (count_case c counted) ≡ suc (sum_counts counted)
unfolding count_case
sum_counts-count_case c [] = refl
sum_counts-count_case c ((d, n) ∷ counted) = ground (arith, sum_counts-count_case c counted)

-- The counts of the union add up to the number of cases.
sum_counts-case_union : (cs : List Case) → sum_counts (case_union cs) ≡ length cs
unfolding case_union
sum_counts-case_union [] = refl
sum_counts-case_union (c ∷ cs) =
    sum_counts-count_case c (case_union cs) ∙ ap suc (sum_counts-case_union cs)

-- A number that is tallied is the index of a completed group.
tally-Mem :
    (P : Completed → Type 0) (i : ℕ) (completed : List Completed)
    → All P completed
    → 1 ≤ tally i (map (λ c. c.index) completed)
    → (c : Completed) × Mem c completed × (c.index ≡ i) × P c
unfolding tally
tally-Mem P i [] h below = absurd (omega arith)
tally-Mem P i (c ∷ completed) h below = elim (Bool-cases (i == c.index)) [
  | inl same ↦ (c, mem-cons_self, sym (==→eq i c.index same), h.0)
  | inr other ↦
      let (d, member, named, p) = tally-Mem P i completed h.1 (ground arith) in
      (d, mem-cons_of_mem c member, named, p)
]

get_elem?-lt : {A : Type 0} (xs : List A) (i : ℕ) {x : A} → get_elem? xs i ≡ some x → i < length xs
get_elem?-lt [] i h = cc
get_elem?-lt (y ∷ xs) zero h = omega arith
get_elem?-lt (y ∷ xs) (suc i) h = omega (arith, get_elem?-lt xs i h)

enforce_floor-le : (n m : ℕ) → enforce_floor n m ≡ ok tt → m ≤ n
unfolding enforce_floor
enforce_floor-le n m h = ground arith

module _ (lib : Library) (env : Environment) (mode : ExecutionMode) (minimum : ℕ)
    (baseline : Summary) where
  -- A worker ran the group.
  abbrev pub Ran : ℕ → List String → Completed → Type 0
  Ran i tests c = (w : ℕ) × IsRunOf lib (env.directory w) mode env.invoke i tests c

  -- What a run promises: each of the groups was run, as the completed group of its index, of which
  -- there is one; the tests are counted, and are as many as asked for; the union counts each visible
  -- case.
  pub record IsWhole (groups : List (List String)) (o : Outcome) : Type 0 where
    pub ran :
        (i : ℕ) (tests : List String)
        → get_elem? groups i ≡ some tests
        → (c : Completed) × Mem c o.completed × (c.index ≡ i) × Ran i tests c
    pub once : (i : ℕ) → i < length groups → tally i (map (λ c. c.index) o.completed) ≡ 1
    pub counted : o.observed ≡ sum (map (λ c. c.observed) o.completed)
    pub enough : minimum ≤ o.observed
    pub united :
        o.summary.visible_cases ≡ length (flatten (map (λ (c : Completed). c.visible) o.completed))

  -- A completed group of some worker.
  abbrev IsOf : List (List String) → Completed → Type 0
  IsOf groups c =
      (tests : List String) × (get_elem? groups c.index ≡ some tests) × Ran c.index tests c

  with_worker :
      (groups : List (List String)) (w : ℕ) (completed : List Completed)
      → All
          (λ c.
            (tests : List String) × (get_elem? groups c.index ≡ some tests)
            × IsRunOf lib (env.directory w) mode env.invoke c.index tests c)
          completed
      → All (IsOf groups) completed
  with_worker groups w [] h = tt
  with_worker groups w (c ∷ completed) ((tests, found, is_run), rest) =
      ((tests, found, (w, is_run)), with_worker groups w completed rest)

  numbered :
      (groups : List (List String)) (pairs : List (ℕ × List String))
      → All (λ a. (j : ℕ) × (a.0 ≡ 0 + j) × (get_elem? groups j ≡ some a.1)) pairs
      → All (λ a. get_elem? groups a.0 ≡ some a.1) pairs
  numbered groups [] h = tt
  numbered groups (a ∷ pairs) ((j, number, found), rest) = (
    subst (λ i. get_elem? groups i ≡ some a.1) (omega (arith, number)) found,
    numbered groups pairs rest,
  )

  collect-IsOf :
      (groups : List (List String)) (order : List ℕ) (completed : List Completed)
      → collect lib env mode minimum baseline groups order ≡ ok completed
      → All (IsOf groups) completed
  unfolding collect work
  collect-IsOf groups [] completed h = subst (All (IsOf groups)) (ap (value_or completed) h) tt
  collect-IsOf groups (w ∷ order) completed h =
      let (first, one, after) = >>=-eq-ok (work lib env mode minimum baseline groups w) _ h in
      let (rest, two, same) =
        >>=-eq-ok (collect lib env mode minimum baseline groups order) _ after in
      let dealt =
        All-stride (λ (a : ℕ × List String). get_elem? groups a.0 ≡ some a.1) w env.capacity
          (enumerate 0 groups)
          (numbered groups (enumerate 0 groups) (enumerate-IsPlaced 0 groups)) in
      subst (All (IsOf groups)) (ap (value_or completed) same) (
        All-append (IsOf groups) first rest
          (with_worker groups w first (
            execute-IsRunOf lib (env.directory w) mode env.invoke
              (λ i tests. get_elem? groups i ≡ some tests) env.stopped (env.clean w) _ first dealt
              one))
          (collect-IsOf groups order rest two))

  run-eq-ok :
      (groups : List (List String)) (o : Outcome)
      → run lib env mode minimum baseline groups ≡ ok o
      → (collect lib env mode minimum baseline groups env.finish_order ≡ ok o.completed)
        × (sorted (map (λ c. c.index) o.completed) ≡ range 0 (length groups))
        × (o.observed ≡ sum (map (λ c. c.observed) o.completed))
        × (minimum ≤ o.observed)
        × (o.summary.visible_cases
            ≡ length (flatten (map (λ (c : Completed). c.visible) o.completed)))
  unfolding run summarize
  run-eq-ok groups o h =
      let (completed, one, after) =
        >>=-eq-ok (collect lib env mode minimum baseline groups env.finish_order) _ h in
      let whole = sorted (map (λ c. c.index) completed) == range 0 (length groups) in
      let observed = sum (map (λ c. c.observed) completed) in
      let summary =
        summarize env.dumps env.sha256 (flatten (map (λ c. c.visible) completed))
          (flatten (map (λ c. c.rows) completed)) in
      let (u, two, h1) = >>=-eq-ok (if env.links_clean then ok tt else err process_error) _ after in
      let (v, three, h2) =
        >>=-eq-ok (raise_if (not whole) "complete test corpus did not execute") _ h1 in
      let (w, four, h3) = >>=-eq-ok (enforce_floor observed minimum) _ h2 in
      let (x, five, h4) =
        >>=-eq-ok
          (raise_if (differs mode baseline summary)
            "full-corpus case/skip or coverage union differs from reviewed baseline")
          _ h3 in
      let (y, six, same) =
        >>=-eq-ok
          (raise_if (is_nil (nonempty completed))
            "no application coverage collected from the complete corpus")
          _ h4 in
      subst
        (λ (o : Outcome).
          (collect lib env mode minimum baseline groups env.finish_order ≡ ok o.completed)
          × (sorted (map (λ c. c.index) o.completed) ≡ range 0 (length groups))
          × (o.observed ≡ sum (map (λ c. c.observed) o.completed))
          × (minimum ≤ o.observed)
          × (o.summary.visible_cases
              ≡ length (flatten (map (λ (c : Completed). c.visible) o.completed))))
        (ap (value_or o) same)
        (
          one,
          ==→eq _ _ (ground arith),
          refl,
          enforce_floor-le observed minimum four,
          sum_counts-case_union _,
        )

  -- A run that completes has run every group, in some worker, with a report that `cases` accepts for
  -- exactly the tests of the group, and has counted each group once, whatever the order in which the
  -- workers finish and wherever they see `stop`; it observed as many tests as asked for, and its
  -- union counts each visible case.
  pub run-IsWhole :
      (groups : List (List String)) (o : Outcome)
      → run lib env mode minimum baseline groups ≡ ok o
      → IsWhole groups o
  run-IsWhole groups o h =
      let (collected, whole, counted, enough, united) = run-eq-ok groups o h in
      let of_groups = collect-IsOf groups env.finish_order o.completed collected in
      let once : (i : ℕ) → i < length groups → tally i (map (λ c. c.index) o.completed) ≡ 1 =
        λ i below. sorted-tally (map (λ c. c.index) o.completed) (length groups) i whole below in
      record {
        ran = λ i tests found.
            let (c, member, named, (tests', found', (w, is_run))) =
              tally-Mem (IsOf groups) i o.completed of_groups
                (omega (arith, once i (get_elem?-lt groups i found))) in
            let same : tests' ≡ tests =
              some-injective tests' tests
                (sym (subst (λ j. get_elem? groups j ≡ some tests') named found') ∙ found) in
            (
              c,
              member,
              named,
              (
                w,
                subst (λ j. IsRunOf lib (env.directory w) mode env.invoke j tests c) named
                    (subst (λ t. IsRunOf lib (env.directory w) mode env.invoke c.index t c) same
                      is_run),
              ),
            );
        once = once;
        counted = counted;
        enough = enough;
        united = united;
      }
