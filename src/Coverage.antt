-- ===== src/Coverage.antt =====
-- scripts/run-flutter-coverage.py: the run of the whole test corpus in groups, by several
-- workers.
pub mod Groups
pub mod Workers
pub mod Search
pub mod Snapshot
pub mod Timeout
pub mod Split
pub mod ReportPath
pub mod Cases
pub mod Rows
pub mod Stitch
pub mod Worker
pub mod Union
pub mod Plan
pub mod Main
pub mod Corpus
pub mod Gitlinks
pub mod Worktrees
use yuelink_ci.Prelude.{String, List, [], ◌∷◌, ◌++◌}

abbrev pub macos_test : String
macos_test = "test/core/storage/secure_storage_macos_keychain_test.dart"

abbrev pub required_tests : List String
required_tests =
    "test/services/user_custom_rules_test.dart" ∷ "test/services/subscription_parser_test.dart"
    ∷ "test/core/storage/persisted_schema_test.dart"
    ∷ "test/core/storage/settings_service_schema_test.dart" ∷ []

-- `ISOLATED`
abbrev pub isolated_tests : List String
isolated_tests =
    required_tests
    ++ ("test/governance/mihomo_fork_ledger_test.dart"
        ∷ "test/core/storage/subscription_reset_operation_store_test.dart"
        ∷ "test/core/storage/tun_datapath_accel_latch_test.dart"
        ∷ "test/services/rotating_log_file_test.dart" ∷ [])
