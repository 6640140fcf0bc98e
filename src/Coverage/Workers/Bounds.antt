-- ===== src/Coverage/Workers/Bounds.antt =====
-- The number of workers is positive and within every bound.
use yuelink_ci.Prelude.{ℕ, ◌+◌, ◌-◌, ◌*◌, ◌/◌, ◌≤◌, ◌<◌, ◌≡◌, String, true, List, [], ◌∷◌, min}
use yuelink_ci.Prelude.{Option, none, some, codes, nat_eq, arith, if◌then◌else◌}
use yuelink_ci.Prelude.Result.{ok, value_or}
use yuelink_ci.Coverage.Workers.{max_workers, gib, worker_memory, Snapshot, is_positive_text}
use yuelink_ci.Coverage.Workers.{to_number, cpus, memory_workers, limit_by_memory, worker_count}

to_number-ge : (acc : ℕ) (cs : List ℕ) → acc ≤ to_number acc cs
unfolding to_number
to_number-ge acc [] = omega arith
to_number-ge acc (c ∷ cs) = omega (arith, to_number-ge (acc * 10 + (c - 48)) cs)

to_number-pos : (cs : List ℕ) → is_positive_text cs ≡ true → 0 < to_number 0 cs
unfolding to_number is_positive_text
to_number-pos [] h = cc
to_number-pos (c ∷ cs) h =
    let first : 49 ≤ c = ground arith in omega (arith, to_number-ge (0 * 10 + (c - 48)) cs)

cpus-pos : (o : Option ℕ) → 0 < cpus o
cpus-pos none = omega arith
cpus-pos (some n) = ground arith

-- The workers and half a gibibyte fit into the memory that is visible.
abbrev pub FitsMemory : Option ℕ → ℕ → Type 0
FitsMemory none n = Unit
FitsMemory (some memory) n = n * worker_memory + gib / 2 ≤ memory

pub record IsWithin (explicit : String) (s : Snapshot) (n : ℕ) : Type 0 where
  pub positive : 0 < n
  pub fixed : n ≤ max_workers
  pub asked : n ≤ to_number 0 (codes explicit)
  pub processors : n ≤ cpus s.effective_cpus
  pub memory : FitsMemory s.available_memory_bytes n
  pub conservative : s.unknown ≡ true → n ≡ 1

memory_workers-fits :
    (memory n : ℕ) → 0 < n → n ≤ memory_workers memory → n * worker_memory + gib / 2 ≤ memory
unfolding memory_workers
memory_workers-fits memory n p h = omega arith

limit-bounds :
    (o : Option ℕ) (maximum m : ℕ)
    → limit_by_memory o maximum ≡ ok m
    → 0 < maximum
    → (0 < m) × (m ≤ maximum)
unfolding limit_by_memory
limit-bounds none maximum m h p = (ground arith, ground arith)
limit-bounds (some memory) maximum m h p = (ground arith, ground arith)

limit-FitsMemory :
    (o : Option ℕ) (maximum m n : ℕ)
    → limit_by_memory o maximum ≡ ok m
    → 0 < n
    → n ≤ m
    → FitsMemory o n
unfolding limit_by_memory
limit-FitsMemory none maximum m n h q le = tt
limit-FitsMemory (some memory) maximum m n h q le = memory_workers-fits memory n q (ground arith)

-- A number of workers that `worker_count` returns is positive and at most four, at most the
-- environment's bound and the number of processors (one if that is unknown or 0), leaves half a
-- gibibyte free in the visible memory when every worker takes two and a half, and is one where the
-- capacity is unknown.
pub worker_count-IsWithin :
    (explicit : String) (s : Snapshot) (n : ℕ)
    → worker_count explicit s ≡ ok n
    → IsWithin explicit s n
unfolding worker_count
worker_count-IsWithin explicit s n h =
    let top : ℕ = min (min max_workers (to_number 0 (codes explicit))) (cpus s.effective_cpus) in
    let m : ℕ = value_or 0 (limit_by_memory s.available_memory_bytes top) in
    let asked = to_number-pos (codes explicit) (ground arith) in
    let some_cpu = cpus-pos s.effective_cpus in
    let limited : limit_by_memory s.available_memory_bytes top ≡ ok m = ground arith in
    let bounds = limit-bounds s.available_memory_bytes top m limited (omega arith) in
    let chosen : n ≡ (if s.unknown then 1 else m) = ground arith in
    let positive : 0 < n = ground arith in
    let below : n ≤ m = ground arith in
    record {
      positive = positive;
      fixed = omega arith;
      asked = omega arith;
      processors = omega arith;
      memory = limit-FitsMemory s.available_memory_bytes top m n limited positive below;
      conservative = λ u. ground arith;
    }
