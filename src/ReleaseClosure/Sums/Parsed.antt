-- ===== src/ReleaseClosure/Sums/Parsed.antt =====
-- What the checksum file and the bindings of the manifest satisfy.
use yuelink_ci.Prelude.{◌≡◌, ap, ◌∙◌, String, true, false, List, [], ◌∷◌}
use yuelink_ci.Prelude.{◌++◌, map, some, AreNew, AreNew-Distinct, Distinct}
use yuelink_ci.Prelude.{AreNew-of_Distinct, ◌↔◌}
use yuelink_ci.Prelude.{◌==◌, string_eq, Bool-cases, Option-cases, arith, inl, inr}
use mathlib.Core.List.{append-nil, append_assoc, map-append}
use yuelink_ci.Prelude.Result.{ok}
use yuelink_ci.ReleaseClosure.{Library}
use yuelink_ci.ReleaseClosure.Sums.{Entry, name_of, match_entry, parse_lines}

-- The lines of a checksum file and its entries: a line is blank, or is one entry.
pub data Lines (lib : Library) : List String → List Entry → Type 0 where
  none_left : Lines lib [] []
  blank :
      {line : String} {lines : List String} {entries : List Entry}
      → (lib.manifest.strip line == "") ≡ true
      → Lines lib lines entries
      → Lines lib (line ∷ lines) entries
  entry :
      {line : String} {lines : List String} {e : Entry} {entries : List Entry}
      → (lib.manifest.strip line == "") ≡ false
      → match_entry line ≡ some e
      → Lines lib lines entries
      → Lines lib (line ∷ lines) (e ∷ entries)

module _ (lib : Library) where
  -- What the loop adds to the entries that it has.
  record IsAdded (before : List Entry) (lines : List String) (after : List Entry) : Type 0 where
    added : List Entry
    whole : after ≡ before ++ added
    read : Lines lib lines added
    new : AreNew (map name_of before) (map name_of added)

  parse_lines-IsAdded :
      (entries : List Entry) (lines : List String) (after : List Entry)
      → parse_lines lib entries lines ≡ ok after
      → IsAdded entries lines after
  unfolding parse_lines
  parse_lines-IsAdded entries [] after h = record {
    added = [];
    whole = ground (arith, append-nil entries);
    read = none_left;
    new = tt;
  }
  parse_lines-IsAdded entries (line ∷ lines) after h =
      elim (Bool-cases (lib.manifest.strip line == "")) [
        | inl empty ↦
            let rest = parse_lines-IsAdded entries lines after (ground arith) in
            record {
              added = rest.added;
              whole = rest.whole;
              read = blank empty rest.read;
              new = rest.new;
            }
        | inr full ↦ elim (Option-cases (match_entry line)) [
          | inl malformed ↦ absurd (ground arith)
          | inr (e, matched) ↦
              let rest = parse_lines-IsAdded (entries ++ e ∷ []) lines after (ground arith) in
              record {
                added = e ∷ rest.added;
                whole = rest.whole ∙ append_assoc entries (e ∷ []) rest.added;
                read = entry full matched rest.read;
                new = (ground arith, rw map-append at rest.new);
              }
        ]
      ]

  Lines-parse :
      {lines : List String} {added : List Entry} (entries : List Entry)
      → Lines lib lines added
      → AreNew (map name_of entries) (map name_of added)
      → parse_lines lib entries lines ≡ ok (entries ++ added)
  unfolding parse_lines
  Lines-parse entries none_left new = rw append-nil
  Lines-parse entries (blank empty rest) new = rw empty (Lines-parse entries rest new)
  Lines-parse entries (entry {e = e} {entries = more} full matched rest) new =
      let more_parsed =
        Lines-parse (entries ++ e ∷ []) rest (rw map-append new.1)
        ∙ ap ok (append_assoc entries (e ∷ []) more) in
      rw (full, matched, new.0) more_parsed

  -- The loop returns entries exactly when they are those of the lines, in order, and no file name
  -- stands twice.
  pub parse_lines_iff :
      (lines : List String) (entries : List Entry)
      → (parse_lines lib [] lines ≡ ok entries)
        ↔ (Lines lib lines entries × Distinct (map name_of entries))
  parse_lines_iff lines entries = (
    λ h.
        let read = parse_lines-IsAdded [] lines entries h in
        rw read.whole (read.read, AreNew-Distinct [] (map name_of read.added) read.new),
    λ h. Lines-parse [] h.0 (AreNew-of_Distinct (map name_of entries) h.1),
  )
