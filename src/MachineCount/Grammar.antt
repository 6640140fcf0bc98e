-- ===== src/MachineCount/Grammar.antt =====
-- The streams that `count_test_starts` accepts, described without its loop.
use mathlib.Core.Path.{fun_ext}
use yuelink_ci.Prelude.{ℕ, suc, ◌+◌, ◌≡◌, refl, ◌∙◌, ap, ◌↔◌, ◌⊎◌, inl, inr, ◌≢◌}
use yuelink_ci.Prelude.{String, true, false, Option, none, some, List, [], ◌∷◌, ◌++◌, map}
use yuelink_ci.Prelude.{All, Bool-cases, ◌==◌, string_eq, if◌then◌else◌, arith}
use yuelink_ci.Prelude.Result.{Result, ok, err, ◌>>=◌, >>=-eq-ok}
use yuelink_ci.Json.{Json, obj, get, is_text, is_true, is_text_distinct}
use yuelink_ci.MachineCount.{Scan, fresh, event_type, succeeded, on_record, on_line, finish}
use yuelink_ci.MachineCount.{scan, count_test_starts}

-- A record between the first and the last: of any type but `start` and `done`.
abbrev pub IsOrdinary : Json → Type 0
IsOrdinary e = (is_text "start" (event_type e) ≡ false) × (is_text "done" (event_type e) ≡ false)

abbrev pub IsStart : Json → Type 0
IsStart e = is_text "start" (event_type e) ≡ true

abbrev pub IsSuccess : Json → Type 0
IsSuccess e = (is_text "done" (event_type e) ≡ true) × (is_true (succeeded e) ≡ true)

-- How many records are `testStart`.
unfoldable pub tests : List Json → ℕ
tests [] = 0
tests (e ∷ es) = if is_text "testStart" (event_type e) then suc (tests es) else tests es

-- Some lines that are no JSON, one `start`, ordinary records with `n` tests, one successful `done`.
pub record IsProtocol (events : List (Option Json)) (n : ℕ) : Type 0 where
  pub noise : List (Option Json)
  pub first : Json
  pub body : List Json
  pub last : Json
  pub shape : events ≡ noise ++ (some first ∷ (map some body ++ (some last ∷ [])))
  pub quiet : All (λ e. e ≡ none) noise
  pub starts : IsStart first
  pub ordinary : All IsOrdinary body
  pub ends : IsSuccess last
  pub counted : n ≡ tests body

run : List (Option Json) → Scan → Result Scan
run [] s = ok s
run (e ∷ es) s = on_line s e >>= run es

abbrev running : ℕ → Scan
running n = record { count = n; started = true; done = false }

abbrev finished : ℕ → Scan
finished n = record { count = n; started = true; done = true }

-- What a record does to the running protocol.
on_record-start : (n : ℕ) (e : Json) → IsStart e → (s : Scan) → on_record (running n) e ≢ ok s
unfolding on_record
on_record-start n (obj fs) h s p = ground arith
on_record-start n e h s p = cc

on_record-ordinary :
    (n : ℕ) (e : Json) → IsOrdinary e → on_record (running n) e ≡ ok (running (tests (e ∷ []) + n))
unfolding on_record tests
on_record-ordinary n (obj fs) h = ground arith
on_record-ordinary n e h = ground arith

test_not_done : (v : Option Json) → is_text "testStart" v ≡ true → is_text "done" v ≡ false
unfolding string_eq
test_not_done v = is_text_distinct "testStart" "done" v refl

start_not_done : (v : Option Json) → is_text "start" v ≡ true → is_text "done" v ≡ false
unfolding string_eq
start_not_done v = is_text_distinct "start" "done" v refl

on_record-done : (n : ℕ) (e : Json) → IsSuccess e → on_record (running n) e ≡ ok (finished n)
unfolding on_record
on_record-done n (obj fs) h =
    ground (arith, test_not_done (get "type" fs), start_not_done (get "type" fs))
on_record-done n e h = cc

-- A record that the running protocol accepts is ordinary or the successful end.
on_record-cases :
    (n : ℕ) (e : Json) (s : Scan)
    → on_record (running n) e ≡ ok s
    → IsOrdinary e × (s ≡ running (tests (e ∷ []) + n)) ⊎ IsSuccess e × (s ≡ finished n)
unfolding on_record tests
on_record-cases n (obj fs) s h =
    ground (arith, test_not_done (get "type" fs), start_not_done (get "type" fs))
on_record-cases n e s h = ground arith

-- The records from a running protocol to its end.
record IsBody (n : ℕ) (es : List (Option Json)) (m : ℕ) : Type 0 where
  body : List Json
  last : Json
  shape : es ≡ map some body ++ (some last ∷ [])
  ordinary : All IsOrdinary body
  ends : IsSuccess last
  counted : m ≡ tests body + n

run-finished :
    (n m : ℕ) (es : List (Option Json))
    → (run es (finished n) >>= finish) ≡ ok m
    → (es ≡ []) × (m ≡ n)
unfolding run on_line finish
run-finished n m [] h = (refl, ground arith)
run-finished n m (none ∷ es) h = cc
run-finished n m (some e ∷ es) h = cc

>>=_assoc :
    (r : Result Scan) (es : List (Option Json))
    → (r >>= run es >>= finish) ≡ (r >>= λ s. run es s >>= finish)
>>=_assoc (ok s) es = refl
>>=_assoc (err e) es = refl

tests-cons : (e : Json) (es : List Json) → tests (e ∷ es) ≡ tests (e ∷ []) + tests es
unfolding tests
tests-cons e es = ground arith

IsBody-end :
    (n m : ℕ) (e : Json) (es : List (Option Json))
    → IsSuccess e
    → (run es (finished n) >>= finish) ≡ ok m
    → IsBody n (some e ∷ es) m
unfolding tests
IsBody-end n m e es good h =
    let fin = run-finished n m es h in
    record {
      body = [];
      last = e;
      shape = rw fin.0;
      ordinary = tt;
      ends = good;
      counted = omega (arith, fin.1);
    }

IsBody-more :
    (n m : ℕ) (e : Json) (es : List (Option Json))
    → IsOrdinary e
    → IsBody (tests (e ∷ []) + n) es m
    → IsBody n (some e ∷ es) m
IsBody-more n m e es plain b = record {
  body = e ∷ b.body;
  last = b.last;
  shape = rw b.shape;
  ordinary = (plain, b.ordinary);
  ends = b.ends;
  counted = omega (arith, b.counted, tests-cons e b.body);
}

run-running :
    (n m : ℕ) (es : List (Option Json)) → (run es (running n) >>= finish) ≡ ok m → IsBody n es m
unfolding run on_line finish
run-running n m [] h = cc
run-running n m (none ∷ es) h = cc
run-running n m (some e ∷ es) h =
    let (mid, after, rest) = >>=-eq-ok (run (some e ∷ es) (running n)) finish h in
    let (s, p, q) = >>=-eq-ok (on_record (running n) e) (run es) after in
    let go : (t : Scan) → run es t ≡ ok mid → (run es t >>= finish) ≡ ok m = λ t r. rw r rest in
    elim (on_record-cases n e s p) [
      | inr (good, same) ↦ IsBody-end n m e es good (go (finished n) (rw (← same) q))
      | inl (plain, same) ↦ IsBody-more n m e es plain (
          run-running (tests (e ∷ []) + n) m es (go (running (tests (e ∷ []) + n)) (rw (← same) q)))
    ]

run-fresh : (m : ℕ) (es : List (Option Json)) → (run es fresh >>= finish) ≡ ok m → IsProtocol es m
unfolding run on_line finish
run-fresh m [] h = cc
run-fresh m (none ∷ es) h =
    let p = run-fresh m es h in
    record {
      noise = none ∷ p.noise;
      first = p.first;
      body = p.body;
      last = p.last;
      shape = rw p.shape;
      quiet = (refl, p.quiet);
      starts = p.starts;
      ordinary = p.ordinary;
      ends = p.ends;
      counted = p.counted;
    }
run-fresh m (some e ∷ es) h = elim (Bool-cases (is_text "start" (event_type e))) [
  | inr other ↦ absurd (ground arith)
  | inl begin ↦
      let b = run-running 0 m es (rw begin at h) in
      record {
        noise = [];
        first = e;
        body = b.body;
        last = b.last;
        shape = rw b.shape;
        quiet = tt;
        starts = begin;
        ordinary = b.ordinary;
        ends = b.ends;
        counted = omega (arith, b.counted);
      }
]

run-body :
    (n : ℕ) (body : List Json) (last : Json)
    → All IsOrdinary body
    → IsSuccess last
    → (run (map some body ++ (some last ∷ [])) (running n) >>= finish) ≡ ok (tests body + n)
unfolding run on_line finish tests
run-body n [] last plain good = rw (on_record-done n last good) (ap ok (omega arith))
run-body n (e ∷ body) last plain good = rw (on_record-ordinary n e plain.0) (
    run-body (tests (e ∷ []) + n) body last plain.1 good ∙ ap ok (omega (arith, tests-cons e body)))

run-noise :
    (noise : List (Option Json)) (es : List (Option Json))
    → All (λ e. e ≡ none) noise
    → run (noise ++ es) fresh ≡ run es fresh
unfolding run on_line
run-noise [] es q = refl
run-noise (e ∷ noise) es q = rw q.0 (run-noise noise es q.1)

run-IsProtocol :
    (es : List (Option Json)) (n : ℕ) → IsProtocol es n → (run es fresh >>= finish) ≡ ok n
unfolding run on_line
run-IsProtocol es n p =
    rw (p.shape, run-noise p.noise _ p.quiet, p.starts)
      (run-body 0 p.body p.last p.ordinary p.ends ∙ ap ok (omega (arith, p.counted)))

module _ (strip : String → String) (loads : String → Option Json) where
  -- The lines that are not blank, as `json.loads` reads them.
  unfoldable pub events : List String → List (Option Json)
  events [] = []
  events (line ∷ lines) =
      if strip line == "" then events lines else loads (strip line) ∷ events lines

  scan-eq-run : (lines : List String) (s : Scan) → scan strip loads lines s ≡ run (events lines) s
  unfolding scan run events
  scan-eq-run [] s = refl
  scan-eq-run (line ∷ lines) s = elim (Bool-cases (strip line == "")) [
    | inl blank ↦ rw blank (scan-eq-run lines s)
    | inr text ↦
        rw text (ap (λ f. on_line s (loads (strip line)) >>= f) (fun_ext (scan-eq-run lines)))
  ]

  -- `count_test_starts` returns n exactly when the lines that are not blank form a protocol: lines
  -- that are no JSON, one `start`, records of which n are `testStart` and none is `start` or
  -- `done`, and last a `done` with `success` true.
  pub count_test_starts-IsProtocol :
      (lines : List String) (n : ℕ)
      → (count_test_starts strip loads lines ≡ ok n) ↔ IsProtocol (events lines) n
  unfolding count_test_starts
  count_test_starts-IsProtocol lines n =
      rw (scan-eq-run lines fresh) (run-fresh n (events lines), run-IsProtocol (events lines) n)
