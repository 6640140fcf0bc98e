-- ===== src/Coverage/Rows/Inside.antt =====
-- The rows that `coverage_rows` gives.
use mathlib.Core.List.{Mem, mem-cast, mem-cons_self, mem-append_left, mem-append_right}
use yuelink_ci.Prelude.{
  subst, drop_text, split_once, ◌≡◌, refl, String, true, false, List, [], ◌∷◌, ◌++◌, Option, none,
  some, All, All-append, All-weaken, contains, arith, starts_with, Bool-cases, ◌⊎◌, inl, inr,
  string_eq, ◌==◌,
}
use yuelink_ci.Prelude.Result.{Result, ok, value_or, >>=-eq-ok}
use yuelink_ci.Prelude.Int.{ℤ}
use yuelink_ci.Coverage.ReportPath.{PosixPath, to_path, text_of, relative, candidate, relative_to}
use yuelink_ci.Coverage.Rows.Named.{IsRowOf, scan-IsRowOf}
use yuelink_ci.Coverage.Rows.{
  Row, Found, nothing_found, counter_rows, on_source, source_of, is_counter, on_counter, is_hit,
  key_and_hits, kind_and_payload, on_row, scan, coverage_rows,
}

-- A path that names a file below the prefix: relative, and without "..".
pub record IsBelow (prefix : String) (s : String) : Type 0 where
  pub path : PosixPath
  pub printed : s ≡ text_of path
  pub begins : starts_with prefix s ≡ true
  pub unrooted : path.root ≡ ""
  pub forward : contains path.parts ".." ≡ false

candidate-root : (worker p q : PosixPath) → candidate worker p ≡ ok q → q.root ≡ ""
unfolding candidate relative_to
candidate-root worker p q h = ground arith

-- A path that `relative` returns is relative, begins with the prefix, and has no "..".
relative-IsBelow :
    (worker : PosixPath) (prefix path s : String)
    → relative worker prefix path ≡ ok s
    → IsBelow prefix s
unfolding relative
relative-IsBelow worker prefix path s h =
    let p : PosixPath =
      value_or (record { root = ""; parts = [] }) (candidate worker (to_path path)) in
    record {
      path = p;
      printed = ground arith;
      begins = ground arith;
      unrooted = ground (arith, candidate-root worker (to_path path) p);
      forward = ground arith;
    }

-- The counter of a row that was hit.
abbrev pub uncovered : Row → Row
uncovered r = record r { covered = false }

-- Each row is of a file below lib/, and a counter that was hit is also there as a counter.
unfoldable pub IsCounted : List Row → Type 0
IsCounted rows =
    All (λ r. IsBelow "lib/" r.source) rows
    × All (λ r. r.covered ≡ true → Mem (uncovered r) rows) rows

IsCounted-append : (xs ys : List Row) → IsCounted xs → IsCounted ys → IsCounted (xs ++ ys)
unfolding IsCounted
IsCounted-append xs ys h k = (
  All-append _ xs ys h.0 k.0,
  All-append _ xs ys (All-weaken xs (λ r m hit. mem-append_left ys (m hit)) h.1)
      (All-weaken ys (λ r m hit. mem-append_right xs (m hit)) k.1),
)

IsSound : Found → Type 0
IsSound s = IsCounted s.rows × ((source : String) → s.source ≡ some source → IsBelow "lib/" source)

source_of-eq : (o : Option String) (source : String) → source_of o ≡ ok source → o ≡ some source
source_of-eq none source h = cc
source_of-eq (some p) source h = cc

ended-IsSound : (s t : Found) → IsSound s → t ≡ record s { source = none } → IsSound t
unfolding IsSound
ended-IsSound s t sound same = rw same (sound.0, λ source p. cc)

module _ (int : String → Result ℤ) (worker : PosixPath) where
  -- The rows of one line.
  counter_rows-cases :
      (source line : String) (new : List Row)
      → counter_rows int worker source line ≡ ok new
      → (r : Row) × (r.source ≡ source)
        × (r.covered ≡ false)
        × ((new ≡ r ∷ []) ⊎ (new ≡ r ∷ record r { covered = true } ∷ []))
  unfolding counter_rows
  counter_rows-cases source line new h =
      let kp = value_or ("", "") (kind_and_payload (split_once b':' line)) in
      let kh = value_or ("", "") (key_and_hits kp.0 kp.1) in
      (
        record { source = source; kind = kp.0; key = kh.0; covered = false },
        refl,
        refl,
        elim (Bool-cases (value_or false (is_hit int worker kh.1))) [
          | inl hit ↦ inr (ground arith)
          | inr missed ↦ inl (ground arith)
        ],
      )

  rows-IsCounted :
      (source : String) (new : List Row) (r : Row)
      → IsBelow "lib/" source
      → r.source ≡ source
      → r.covered ≡ false
      → ((new ≡ r ∷ []) ⊎ (new ≡ r ∷ record r { covered = true } ∷ []))
      → IsCounted new
  unfolding IsCounted
  rows-IsCounted source new r inside same shut (inl one) =
      rw one (((rw same inside), tt), ((λ h. absurd (ground arith)), tt))
  rows-IsCounted source new r inside same shut (inr two) = rw two (
    (rw same inside, (rw same inside, tt)),
    ((λ h. absurd (ground arith)), ((λ h. mem-cast (ground arith) mem-cons_self), tt)),
  )

  counter_rows-IsCounted :
      (source line : String) (new : List Row)
      → IsBelow "lib/" source
      → counter_rows int worker source line ≡ ok new
      → IsCounted new
  counter_rows-IsCounted source line new inside h =
      let (r, same, shut, form) = counter_rows-cases source line new h in
      rows-IsCounted source new r inside same shut form

  on_source-IsSound :
      (s t : Found) (line : String) → IsSound s → on_source int worker s line ≡ ok t → IsSound t
  unfolding on_source IsSound
  on_source-IsSound s t line sound h =
      let path = value_or "" (relative worker "lib/" (drop_text 3 line)) in
      let inside = relative-IsBelow worker "lib/" (drop_text 3 line) path (ground arith) in
      let after : t ≡ record s { source = some path } = ground arith in
      rw after (sound.0, λ source same. subst (λ p. IsBelow "lib/" p) (ground arith) inside)

  on_counter-IsSound :
      (s t : Found) (line : String) → IsSound s → on_counter int worker s line ≡ ok t → IsSound t
  unfolding on_counter IsSound
  on_counter-IsSound s t line sound h =
      let source = value_or "" (source_of s.source) in
      let new = value_or [] (counter_rows int worker source line) in
      let after : t ≡ record s { rows = s.rows ++ new } = ground arith in
      let inside = sound.1 source (source_of-eq s.source source (ground arith)) in
      rw after (
        IsCounted-append s.rows new sound.0
            (counter_rows-IsCounted source line new inside (ground arith)),
        sound.1,
      )

  on_row-IsSound :
      (s t : Found) (line : String) → IsSound s → on_row int worker s line ≡ ok t → IsSound t
  unfolding on_row
  on_row-IsSound s t line sound h = elim (Bool-cases (starts_with "SF:" line)) [
    | inl file ↦ on_source-IsSound s t line sound (rw file at h)
    | inr a ↦ elim (Bool-cases (line == "end_of_record")) [
      | inl closed ↦ ended-IsSound s t sound (ground arith)
      | inr b ↦ elim (Bool-cases (is_counter line)) [
        | inl counter ↦ on_counter-IsSound s t line sound (rw (a, b, counter) at h)
        | inr c ↦ let same : t ≡ s = ground arith in rw same sound
      ]
    ]
  ]

  scan-IsSound :
      (s t : Found) (lines : List String) → IsSound s → scan int worker s lines ≡ ok t → IsSound t
  unfolding scan
  scan-IsSound s t [] sound h = let same : t ≡ s = ground arith in rw same sound
  scan-IsSound s t (line ∷ lines) sound h =
      let (mid, first, rest) = >>=-eq-ok (on_row int worker s line) _ h in
      scan-IsSound mid t lines (on_row-IsSound s mid line sound first) rest

  -- Every row of a coverage report is of a line of a counter, with its kind and key, in the record of
  -- a file that the report names below lib/ by a relative path without "..": the last line before it
  -- that names a file or ends a record names this one. A row of a hit is of a line that counts one,
  -- and comes with the row of the counter.
  pub coverage_rows-IsCounted :
      (lines : List String) (rows : List Row)
      → coverage_rows int worker lines ≡ ok rows
      → IsCounted rows × All (IsRowOf int worker lines) rows
  unfolding coverage_rows IsSound IsCounted
  coverage_rows-IsCounted lines rows h =
      let s = value_or nothing_found (scan int worker nothing_found lines) in
      let scanned : scan int worker nothing_found lines ≡ ok s = ground arith in
      let sound = scan-IsSound nothing_found s lines ((tt, tt), λ source same. cc) scanned in
      let same : rows ≡ s.rows = ground arith in
      rw same (sound.0, scan-IsRowOf int worker lines s scanned)
