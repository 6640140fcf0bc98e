-- ===== src/Coverage/Workers.antt =====
-- `worker_count`: how many Flutter compilers run at once. The environment's upper bound is given as
-- its text, and the snapshot by the three members that the function reads.
pub mod Bounds
use yuelink_ci.Prelude.{
  ℕ, ◌+◌, ◌-◌, ◌*◌, ◌/◌, min, String, Bool, true, false, not, ◌&&◌, List, [], ◌∷◌,
}
use yuelink_ci.Prelude.{
  Option, none, some, codes, is_digit, between, all, ◌==◌, nat_eq, if◌then◌else◌,
}
use yuelink_ci.Prelude.Result.{Result, ok, err, value_error, ◌>>=◌, ◌>>◌, raise_if}

-- `WORKERS`
abbrev pub max_workers : ℕ
max_workers = 4

abbrev pub gib : ℕ
gib = 1024 * 1024 * 1024

-- `WORKER_MEMORY`
abbrev pub worker_memory : ℕ
worker_memory = 5 * gib / 2

-- `unknown` is `snapshot["capacity_status"] == "UNKNOWN"`.
pub record Snapshot : Type 0 where
  pub effective_cpus : Option ℕ
  pub available_memory_bytes : Option ℕ
  pub unknown : Bool

-- `[1-9][0-9]*`
unfoldable pub is_positive_text : List ℕ → Bool
is_positive_text [] = false
is_positive_text (c ∷ cs) = between b'1' b'9' c && all is_digit cs

-- `int(explicit)`
unfoldable pub to_number : ℕ → List ℕ → ℕ
to_number acc [] = acc
to_number acc (c ∷ cs) = to_number (acc * 10 + (c - 48)) cs

-- `cpu or 1`
abbrev pub cpus : Option ℕ → ℕ
cpus none = 1
cpus (some n) = if n == 0 then 1 else n

-- The truncated difference is the source's `max(0, ...)` of a floor division.
unfoldable pub memory_workers : ℕ → ℕ
memory_workers memory = (memory - gib / 2) / worker_memory

unfoldable pub limit_by_memory : Option ℕ → ℕ → Result ℕ
limit_by_memory none maximum = ok maximum
limit_by_memory (some memory) maximum = do
  raise_if (memory_workers memory == 0)
      "insufficient visible memory for one grouped compiler worker"
  ok (min maximum (memory_workers memory))

unfoldable pub worker_count : String → Snapshot → Result ℕ
worker_count explicit s = do
  raise_if (not (is_positive_text (codes explicit))) "worker upper bound must be a positive integer"
  maximum ←
      limit_by_memory s.available_memory_bytes
        (min (min max_workers (to_number 0 (codes explicit))) (cpus s.effective_cpus))
  ok (if s.unknown then 1 else maximum)
