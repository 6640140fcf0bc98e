-- ===== src/Lib.antt =====
-- The release control scripts of the YueLink public builder: Python programs that decide whether an
-- update manifest, a compatibility policy, a test report or a downloaded archive may be trusted.
--
-- Parts, and the files that model them:
--   scripts/verify-update-manifest.py: Manifest.antt and the files below it.
--   scripts/lib/client_support_policy.py: ClientPolicy.antt and the files below it; the manifest
--     verifier validates the policy that a manifest carries with it.
--   scripts/count-flutter-machine-tests.py: MachineCount.antt, MachineCount/Grammar.antt.
--   scripts/run-flutter-coverage.py: Coverage.antt and the files below it. Coverage/Corpus.antt is
--     its `main`: the test files, the plan of their groups (Plan.antt, Groups.antt), the number of
--     workers (Workers.antt) upon a snapshot of the host (Snapshot.antt, Search.antt), the groups
--     that are dealt to them (Main.antt), and what a worker does with a group
--     (Worker.antt): the classification of a run that timed out, the split of its group and the
--     joining of its reports, the check of a report that passed (it counts with MachineCount), and
--     the rows of its coverage. Worktrees.antt adds and removes the
--     workers' worktrees, Gitlinks.antt those of their submodules.
--   .github/actions/setup-flutter/install_flutter_sdk.py: FlutterSdk.antt and the files below it.
--     FlutterSdk/Main.antt is its `main`: the release tables, the cached SDK, the safety of the
--     archive, the swap of the SDK, and the version that it reports.
--   scripts/verify-release-closure.py: ReleaseClosure.antt and the files below it; it calls the
--     manifest verifier.
--   scripts/gh-read-retry.py: ReadRetry.antt and the files below it, for the commands that may be
--     run, which failures are of the transport (Regex.antt matches its expressions), and the
--     attempts of a run.
--   scripts/verify-release-page-health.py: PageHealth.antt and the files below it.
--   scripts/attach-client-support-policy.py: Attachment.antt and the file below it; it joins the
--     manifest verifier and the policy.
--   scripts/contract-baseline.py: Baseline.antt. scripts/reconcile-yuelink-pin.py: PinPlan.antt. Both
--     call the manifest verifier.
--
-- Conventions. A Python value read from JSON is a `Json`, its dictionaries the list of their items in
-- insertion order. A call that may raise returns a `Result`; a message keeps its fixed part. A
-- function of the source keeps its name, without a leading underscore. Python's and third parties'
-- functions that decode, parse dates or run programs are parameters, in a record `Library` for each
-- part; instants are microseconds since the year 1. The loops are structural recursions, but for
-- four with fuel: the one that reads a response in blocks, with the number of bytes, since no
-- block is empty; the split of a group of tests, with the number of its tests; `validate` of
-- gh-read-retry.py, which calls itself, with two more than there are words; and `add_gitlinks`,
-- with the depths that its own bound leaves, the end of which is its error.
--
-- Threads are not interleaved step by step: the order in which the workers of a coverage run finish,
-- and the groups before which one sees that another failed, are arguments.
--
-- Not modelled: the command lines, subprocess and file handling, and the shell scripts; of
-- run-flutter-coverage.py the receipts and the merge by lcov; and release_drift.py.
pub mod Prelude
pub mod Json
pub mod MachineCount
pub mod Coverage
pub mod ClientPolicy
pub mod Manifest
pub mod FlutterSdk
pub mod ReadRetry
pub mod Regex
pub mod ReleaseClosure
pub mod PageHealth
pub mod Attachment
pub mod Baseline
pub mod PinPlan
pub mod Tests
