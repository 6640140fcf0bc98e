-- ===== src/Coverage/Snapshot.antt =====
-- `resource_snapshot`: what the host and its control groups let a run have. A directory below
-- /sys/fs/cgroup is the list of its parts.
pub mod Bounds
use yuelink_ci.Prelude.{
  ℕ, zero, suc, ◌+◌, ◌*◌, ◌-◌, ◌/◌, min, String, Bool, true, false, not, ◌&&◌, ◌||◌, List, [], ◌∷◌,
  ◌++◌, map, Option, none, some, codes, is_digit, between, is_word_of, all, any, contains,
  starts_with, strip_prefix, split_text, drop_text, leb, ◌==◌, nat_eq, string_eq, list_eq,
  if◌then◌else◌,
}
use yuelink_ci.Prelude.Int.{ℤ, pos, negsuc}
use yuelink_ci.Prelude.Result.{
  Result, ok, err, value_error, index_error, zero_division_error, ◌>>=◌,
}
use yuelink_ci.Coverage.Workers.{Snapshot, to_number, cpus}
use yuelink_ci.Coverage.Search.{search, available_pattern, page_pattern, pages_pattern}
use yuelink_ci.Coverage.Gitlinks.{Place, path_parts}

-- What the function asks of the host. `membership` and `meminfo` are `read_text` of /proc/self/cgroup
-- and /proc/meminfo, and `read directory name` that of a file below /sys/fs/cgroup; `vm_stat` is
-- missing where the command failed; `events_missing` says that the root has no cgroup.events.
-- `split` and `to_int` are Python's `str.split` and `int`.
pub record Host : Type 0 where
  pub cpu_count : Option ℕ
  pub affinity : Option ℕ
  pub system : String
  pub membership : Option String
  pub meminfo : Option String
  pub vm_stat : Option String
  pub read : Place → String → Option String
  pub events_missing : Bool
  pub split : String → List String
  pub to_int : String → Option ℤ

-- `match[1]`, if there is a line "0::/..."
unfoldable pub group_line : List String → Option String
group_line [] = none
group_line (line ∷ lines) =
    let rest = group_line lines in if starts_with "0::/" line then some (drop_text 3 line) else rest

-- `candidate` and its parents down to the root.
unfoldable pub upward : Place → List Place
upward [] = [] ∷ []
upward (s ∷ ss) = map (λ place. s ∷ place) (upward ss) ++ [] ∷ []

-- `max(1, amount // period)`
unfoldable pub shares : ℤ → ℤ → Result ℕ
shares amount (pos zero) = err zero_division_error
shares (pos a) (pos (suc p)) = ok (if leb 1 (a / suc p) then a / suc p else 1)
shares (negsuc a) (negsuc p) = ok (if leb 1 (suc a / suc p) then suc a / suc p else 1)
shares (pos a) (negsuc p) = ok 1
shares (negsuc a) (pos (suc p)) = ok 1

-- `int(text) if text and text.isdecimal() else None`
unfoldable pub decimal_text : Option String → Option ℕ
decimal_text none = none
decimal_text (some s) = if is_word_of is_digit (codes s) then some (to_number 0 (codes s)) else none

-- `min(available, headroom) if available is not None else headroom`
abbrev pub at_most : Option ℕ → Option ℕ → Option ℕ
at_most available none = available
at_most none (some headroom) = some headroom
at_most (some available) (some headroom) = some (min available headroom)

-- An entry of `limits`.
pub record Limit : Type 0 where
  pub path : Place
  pub cpu_max : Option String
  pub memory_max : Option String
  pub root_limits_not_applicable : Bool
  pub current_bytes : Option ℕ
  pub peak_bytes : Option String
  pub events : Option String

-- A text that is true in a test.
abbrev pub truthy : Option String → Option String
truthy none = none
truthy (some s) = if s == "" then none else some s

abbrev pub is_none {ℓ} : {A : Type ℓ} → Option A → Bool
is_none none = true
is_none (some a) = false

pub record ResourceReport : Type 0 where
  pub snapshot : Snapshot
  pub cgroup : List Limit
  pub missing_interfaces : List String

-- `min(cpu or 1, bound)`
abbrev pub at_most_cpus : Option ℕ → Option ℕ → Option ℕ
at_most_cpus cpu none = cpu
at_most_cpus cpu (some bound) = some (min (cpus cpu) bound)

module _ (host : Host) where
  -- The processors before the control groups are asked.
  unfoldable pub visible_cpus : Option ℕ
  visible_cpus = elim host.affinity [
    | none ↦ host.cpu_count
    | some n ↦ some (min (cpus host.cpu_count) n)
  ]

  -- The directory of the process, if its hierarchy is known.
  unfoldable pub hierarchy : Option Place
  hierarchy = elim host.membership [
    | none ↦ none
    | some text ↦ elim (group_line (split_text 10 text)) [
      | none ↦ none
      | some path ↦
          let place = path_parts (split_text b'/' path) in
          if contains place ".." || is_none (host.read place "cgroup.controllers")
          then none
          else some place
    ]
  ]

  unfoldable pub bases : List Place
  bases = elim hierarchy [ none ↦ [] ∷ [] | some place ↦ upward place ]

  abbrev pub darwin : Option String → Option ℕ
  darwin none = none
  darwin (some vm) = elim (search page_pattern vm) [
    | none ↦ none
    | some page ↦ elim (search (pages_pattern "Pages free:") vm) [
      | none ↦ none
      | some free ↦ elim (search (pages_pattern "Pages inactive:") vm) [
        | none ↦ none
        | some inactive ↦ some ((free + inactive) * page)
      ]
    ]
  ]

  -- `available` before the control groups are asked.
  unfoldable pub host_available : Option ℕ
  host_available = elim (truthy host.meminfo) [
    | none ↦ if host.system == "Darwin" then darwin host.vm_stat else none
    | some text ↦ elim (search available_pattern text) [
      | none ↦ none
      | some kib ↦ some (kib * 1024)
    ]
  ]

  -- `amount, period = map(int, quota.split())`, and the bound that they make.
  abbrev pub quota_bound : Option ℤ → Option ℤ → Result (Option ℕ)
  quota_bound (some amount) (some period) = do n ← shares amount period; ok (some n)
  quota_bound (some amount) none = err (value_error "invalid literal for int()")
  quota_bound none period = err (value_error "invalid literal for int()")

  abbrev pub quota_words : List String → Result (Option ℕ)
  quota_words [] = err index_error
  quota_words (word ∷ []) =
      if word == "max" then ok none else err (value_error "not enough values to unpack")
  quota_words (word ∷ other ∷ []) =
      if word == "max" then ok none else quota_bound (host.to_int word) (host.to_int other)
  quota_words (word ∷ other ∷ more ∷ words) =
      if word == "max" then ok none else err (value_error "too many values to unpack")

  -- The bound of cpu.max on the processors, if it has one.
  unfoldable pub quota : Option String → Result (Option ℕ)
  quota text = elim (truthy text) [ none ↦ ok none | some t ↦ quota_words (host.split t) ]

  -- `headroom`
  unfoldable pub headroom : Place → Option ℕ
  headroom base = elim (decimal_text (host.read base "memory.max")) [
    | none ↦ none
    | some limit ↦ elim (decimal_text (host.read base "memory.current")) [
      | none ↦ none
      | some current ↦ some (limit - current)
    ]
  ]

  abbrev pub controls : Option String → Bool
  controls none = false
  controls (some text) = contains (host.split text) "cpu" && contains (host.split text) "memory"

  unfoldable pub root_uncontrolled : Place → Bool
  root_uncontrolled base =
      base == []
      && is_none (host.read base "cpu.max")
      && is_none (host.read base "memory.max")
      && controls (host.read base "cgroup.controllers")
      && host.events_missing

  unfoldable pub limit_of : Place → Limit
  limit_of base = record {
    path = base;
    cpu_max = host.read base "cpu.max";
    memory_max = host.read base "memory.max";
    root_limits_not_applicable = root_uncontrolled base;
    current_bytes = decimal_text (host.read base "memory.current");
    peak_bytes = host.read base "memory.peak";
    events = host.read base "memory.events";
  }

  -- The loop over the control groups, as far as it is of `cpu` and `available`.
  unfoldable pub measure : List Place → Option ℕ → Option ℕ → Result (Option ℕ × Option ℕ)
  measure [] cpu available = ok (cpu, available)
  measure (base ∷ more) cpu available = do
    bound ← quota (host.read base "cpu.max")
    measure more (at_most_cpus cpu bound) (at_most available (headroom base))

  abbrev pub unmeasured : Limit → Bool
  unmeasured l = (is_none l.cpu_max || is_none l.memory_max) && not l.root_limits_not_applicable

  unfoldable pub missing : Option ℕ → Option ℕ → List Limit → List String
  missing cpu available limits =
      (if is_none cpu then "effective CPU count" ∷ [] else [])
      ++ (if is_none available then "host available memory or visible cgroup headroom" ∷ [] else [])
      ++ (if host.system == "Linux" && (is_none hierarchy || any unmeasured limits)
          then "complete applicable cgroup-v2 CPU/memory hierarchy (v1 is not measured)" ∷ []
          else [])

  -- The dictionary that is returned.
  abbrev pub report : Option ℕ → Option ℕ → List Limit → List String → ResourceReport
  report cpu available limits gaps = record {
    snapshot = record {
      effective_cpus = cpu;
      available_memory_bytes = available;
      unknown = not (gaps == []);
    };
    cgroup = limits;
    missing_interfaces = gaps;
  }

  unfoldable pub resource_snapshot : Result ResourceReport
  resource_snapshot = do
    (cpu, available) ← measure bases visible_cpus host_available
    let limits = map limit_of bases
    ok (report cpu available limits (missing cpu available limits))
