-- ===== src/Tests/Snapshots.antt =====
-- A host of sixteen processors on which a control group leaves three to the run.
use yuelink_ci.Prelude.{
  ℕ, ◌*◌, ◌≡◌, refl, String, true, false, List, [], ◌∷◌, ◌==◌, Option, none, some, split_text,
  starts_with, drop_text, strip_prefix, is_word_of, list_eq, string_eq, nat_eq, if◌then◌else◌,
}
use yuelink_ci.Prelude.Result.{ok}
use yuelink_ci.Prelude.Int.{ℤ, pos}
use yuelink_ci.Coverage.Search.{search_number, match_here, spaces, skip_spaces, digits}
use yuelink_ci.Coverage.Gitlinks.{Place, path_parts}
use yuelink_ci.Coverage.Workers.{
  gib, worker_count, is_positive_text, to_number, limit_by_memory, memory_workers,
}
use yuelink_ci.Coverage.Snapshot.{
  Host, ResourceReport, Limit, decimal_text, group_line, upward, shares, visible_cpus, hierarchy,
  bases, host_available, quota, headroom, root_uncontrolled, limit_of, measure, missing,
  resource_snapshot,
}
use yuelink_ci.Coverage.Snapshot.Bounds.{IsFitting, resource_snapshot-IsFitting}

abbrev job : Place
job = "ci" ∷ "job" ∷ []

abbrev read_job : String → Option String
read_job name =
    if name == "cpu.max"
    then some "300000 100000"
    else if name == "memory.max"
    then some "10737418240"
    else if name == "memory.current"
    then some "1073741824"
    else if name == "cgroup.controllers"
    then some "cpu memory"
    else none

-- The group above has no bounds of its own.
abbrev read_ci : String → Option String
read_ci name =
    if name == "cpu.max"
    then some "max 100000"
    else if name == "memory.max"
    then some "max"
    else none

abbrev read_root : String → Option String
read_root name = if name == "cgroup.controllers" then some "cpu memory" else none

abbrev whole : Option ℕ → Option ℤ
whole none = none
whole (some n) = some (pos n)

abbrev host : Host
host = record {
  cpu_count = some 16;
  affinity = some 8;
  system = "Linux";
  membership = some "1:cpu:/other\n0::/ci//job";
  meminfo = some "MemTotal:  67108864 kB\nMemAvailable:   33554432 kB\nBuffers: 1 kB";
  vm_stat = none;
  read =
      λ place. if place == job then read_job else if place == "ci" ∷ [] then read_ci else read_root;
  events_missing = true;
  split = split_text 32;
  to_int = λ s. whole (decimal_text (some s));
}

abbrev limits : List Limit
limits =
    record {
      path = job;
      cpu_max = some "300000 100000";
      memory_max = some "10737418240";
      root_limits_not_applicable = false;
      current_bytes = some 1073741824;
      peak_bytes = none;
      events = none;
    }
    ∷ record {
      path = "ci" ∷ [];
      cpu_max = some "max 100000";
      memory_max = some "max";
      root_limits_not_applicable = false;
      current_bytes = none;
      peak_bytes = none;
      events = none;
    }
    ∷ record {
      path = [];
      cpu_max = none;
      memory_max = none;
      root_limits_not_applicable = true;
      current_bytes = none;
      peak_bytes = none;
      events = none;
    }
    ∷ []

abbrev observed : ResourceReport
observed = record {
  snapshot = record {
    effective_cpus = some 3;
    available_memory_bytes = some (9 * gib);
    unknown = false;
  };
  cgroup = limits;
  missing_interfaces = [];
}

resource_snapshot_lem : resource_snapshot host ≡ ok observed
unfolding resource_snapshot measure bases hierarchy visible_cpus host_available quota headroom
    root_uncontrolled limit_of missing shares decimal_text group_line upward path_parts
    search_number match_here spaces skip_spaces digits to_number split_text starts_with drop_text
    strip_prefix is_word_of list_eq string_eq nat_eq
resource_snapshot_lem = refl

three_workers : worker_count "8" observed.snapshot ≡ ok 3
unfolding worker_count is_positive_text to_number limit_by_memory memory_workers nat_eq
three_workers = refl

resource_snapshot-IsFitting_example : IsFitting host 3
resource_snapshot-IsFitting_example =
    resource_snapshot-IsFitting host "8" observed 3 resource_snapshot_lem three_workers
