-- ===== src/Coverage/Rows/Named.antt =====
-- Which lines of the report the rows of `coverage_rows` are of.
use mathlib.Core.List.{append_assoc, append-nil}
use mathlib.Core.Option.{some-injective}
use yuelink_ci.Prelude.{
  drop_text, split_once, ◌≡◌, refl, sym, ap, subst, ◌∙◌, String, Bool, true, false, ◌||◌, List, [],
  ◌∷◌, ◌++◌, Option, none, some, All, All-append, All-weaken, arith, starts_with, Bool-cases, ◌⊎◌,
  inl, inr, string_eq, ◌==◌, if◌then◌else◌,
}
use yuelink_ci.Prelude.Result.{Result, ok, value_or, >>=-eq-ok}
use yuelink_ci.Prelude.Int.{ℤ}
use yuelink_ci.Coverage.ReportPath.{PosixPath, relative}
use yuelink_ci.Coverage.Rows.{
  Row, Found, nothing_found, counter_rows, on_source, source_of, is_counter, on_counter, is_hit,
  key_and_hits, kind_and_payload, on_row, scan,
}

abbrev ends_source : String → Bool
ends_source line = starts_with "SF:" line || line == "end_of_record"

source_of-some : (o : Option String) (source : String) → source_of o ≡ ok source → o ≡ some source
source_of-some none source h = cc
source_of-some (some p) source h = cc

module _ (int : String → Result ℤ) (worker : PosixPath) where
  -- The last line that names a file or ends one's record names this file.
  pub record IsOpen (lines : List String) (source : String) : Type 0 where
    pub before : List String
    pub line : String
    pub between : List String
    pub position : lines ≡ before ++ line ∷ between
    pub file : starts_with "SF:" line ≡ true
    pub named : relative worker "lib/" (drop_text 3 line) ≡ ok source
    pub unbroken : All (λ l. ends_source l ≡ false) between

  -- The row has the kind and the key of a counter's line, which stands in the record of its file, and
  -- is of a hit only if the line counts one.
  pub record IsRowOf (lines : List String) (r : Row) : Type 0 where
    pub before : List String
    pub line : String
    pub behind : List String
    pub position : lines ≡ before ++ line ∷ behind
    pub counter : is_counter line ≡ true
    pub source : IsOpen before r.source
    pub payload : String
    pub hits : String
    pub kind : kind_and_payload (split_once b':' line) ≡ ok (r.kind, payload)
    pub key : key_and_hits r.kind payload ≡ ok (r.key, hits)
    pub hit : (r.covered ≡ false) ⊎ (is_hit int worker hits ≡ ok true)

  IsOpen-grows :
      (lines : List String) (line source : String)
      → ends_source line ≡ false
      → IsOpen lines source
      → IsOpen (lines ++ line ∷ []) source
  IsOpen-grows lines line source other o = record {
    before = o.before;
    line = o.line;
    between = o.between ++ line ∷ [];
    position =
        ap (λ l. l ++ line ∷ []) o.position
        ∙ append_assoc o.before (o.line ∷ o.between) (line ∷ []);
    file = o.file;
    named = o.named;
    unbroken = All-append (λ l. ends_source l ≡ false) o.between (line ∷ []) o.unbroken (other, tt);
  }

  IsRowOf-grows :
      (lines : List String) (line : String) (r : Row)
      → IsRowOf lines r
      → IsRowOf (lines ++ line ∷ []) r
  IsRowOf-grows lines line r o = record {
    before = o.before;
    line = o.line;
    behind = o.behind ++ line ∷ [];
    position =
        ap (λ l. l ++ line ∷ []) o.position ∙ append_assoc o.before (o.line ∷ o.behind) (line ∷ []);
    counter = o.counter;
    source = o.source;
    payload = o.payload;
    hits = o.hits;
    kind = o.kind;
    key = o.key;
    hit = o.hit;
  }

  counter_rows-IsRowOf :
      (lines : List String) (source line : String) (new : List Row)
      → IsOpen lines source
      → is_counter line ≡ true
      → counter_rows int worker source line ≡ ok new
      → All (IsRowOf (lines ++ line ∷ [])) new
  unfolding counter_rows
  counter_rows-IsRowOf lines source line new opened counts h =
      let ((kind, payload), one, h1) = >>=-eq-ok (kind_and_payload (split_once b':' line)) _ h in
      let ((key, hits), two, h2) = >>=-eq-ok (key_and_hits kind payload) _ h1 in
      let (hit, three, same) = >>=-eq-ok (is_hit int worker hits) _ h2 in
      let seen : Row = record { source = source; kind = kind; key = key; covered = false } in
      let missed : IsRowOf (lines ++ line ∷ []) seen = record {
        before = lines;
        line = line;
        behind = [];
        position = refl;
        counter = counts;
        source = opened;
        payload = payload;
        hits = hits;
        kind = one;
        key = two;
        hit = inl refl;
      } in
      subst (All (IsRowOf (lines ++ line ∷ []))) (ap (value_or []) same) (
        rows_of hit seen missed (λ counted. record {
          before = lines;
          line = line;
          behind = [];
          position = refl;
          counter = counts;
          source = opened;
          payload = payload;
          hits = hits;
          kind = one;
          key = two;
          hit = inr (three ∙ ap ok counted);
        }))
    where
      rows_of :
          (hit : Bool) (seen : Row)
          → IsRowOf (lines ++ line ∷ []) seen
          → (hit ≡ true → IsRowOf (lines ++ line ∷ []) (record seen { covered = true }))
          → All
              (IsRowOf (lines ++ line ∷ []))
              (if hit then seen ∷ record seen { covered = true } ∷ [] else seen ∷ [])
      rows_of true seen missed counted = (missed, (counted refl, tt))
      rows_of false seen missed counted = (missed, tt)

  -- The rows so far, and the file whose record is being read.
  IsTracked : List String → Found → Type 0
  IsTracked lines s =
      All (IsRowOf lines) s.rows
      × ((source : String) → s.source ≡ some source → IsOpen lines source)

  same-IsTracked :
      (lines : List String) (s : Found) (line : String)
      → ends_source line ≡ false
      → IsTracked lines s
      → IsTracked (lines ++ line ∷ []) s
  unfolding IsTracked
  same-IsTracked lines s line other tracked = (
    All-weaken s.rows (IsRowOf-grows lines line) tracked.0,
    λ source known_open. IsOpen-grows lines line source other (tracked.1 source known_open),
  )

  on_row-IsTracked :
      (lines : List String) (s t : Found) (line : String)
      → IsTracked lines s
      → on_row int worker s line ≡ ok t
      → IsTracked (lines ++ line ∷ []) t
  unfolding on_row on_source on_counter IsTracked
  on_row-IsTracked lines s t line tracked h = elim (Bool-cases (starts_with "SF:" line)) [
    | inl file ↦
        let (path, named, same) =
          >>=-eq-ok (relative worker "lib/" (drop_text 3 line)) _ (rw file at h) in
        subst (IsTracked (lines ++ line ∷ [])) (ap (value_or s) same) (
          All-weaken s.rows (IsRowOf-grows lines line) tracked.0,
          λ source known_open. record {
            before = lines;
            line = line;
            between = [];
            position = refl;
            file = file;
            named = named ∙ ap ok (some-injective path source known_open);
            unbroken = tt;
          },
        )
    | inr a ↦ elim (Bool-cases (line == "end_of_record")) [
      | inl closed ↦
          subst (IsTracked (lines ++ line ∷ [])) (ap (value_or s) (rw (a, closed) at h))
            (All-weaken s.rows (IsRowOf-grows lines line) tracked.0, λ source known_open. cc)
      | inr b ↦
          let other : ends_source line ≡ false = ground arith in
          elim (Bool-cases (is_counter line)) [
            | inl counts ↦
                let (source, known, h1) =
                  >>=-eq-ok (source_of s.source) _ (rw (a, b, counts) at h) in
                let (new, read, same) = >>=-eq-ok (counter_rows int worker source line) _ h1 in
                let opened = tracked.1 source (source_of-some s.source source known) in
                let before = same-IsTracked lines s line other tracked in
                subst (IsTracked (lines ++ line ∷ [])) (ap (value_or s) same) (
                  All-append (IsRowOf (lines ++ line ∷ [])) s.rows new before.0
                      (counter_rows-IsRowOf lines source line new opened counts read),
                  before.1,
                )
            | inr c ↦
                subst (IsTracked (lines ++ line ∷ [])) (ap (value_or s) (rw (a, b, c) at h))
                  (same-IsTracked lines s line other tracked)
          ]
    ]
  ]

  scan-IsTracked :
      (lines more : List String) (s t : Found)
      → IsTracked lines s
      → scan int worker s more ≡ ok t
      → IsTracked (lines ++ more) t
  unfolding scan
  scan-IsTracked lines [] s t tracked h =
      subst (λ l. IsTracked l t) (sym (append-nil lines))
        (subst (IsTracked lines) (ap (value_or s) h) tracked)
  scan-IsTracked lines (line ∷ more) s t tracked h =
      let (mid, first, rest) = >>=-eq-ok (on_row int worker s line) _ h in
      subst (λ l. IsTracked l t) (append_assoc lines (line ∷ []) more)
        (scan-IsTracked (lines ++ line ∷ []) more mid t
          (on_row-IsTracked lines s mid line tracked first) rest)

  pub scan-IsRowOf :
      (lines : List String) (t : Found)
      → scan int worker nothing_found lines ≡ ok t
      → All (IsRowOf lines) t.rows
  unfolding IsTracked
  scan-IsRowOf lines t h =
      (scan-IsTracked [] lines nothing_found t (tt, λ source known_open. cc) h).0
