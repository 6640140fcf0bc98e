-- ===== src/FlutterSdk.antt =====
-- .github/actions/setup-flutter/install_flutter_sdk.py: the pinned Flutter SDK.
pub mod Paths
pub mod Releases
pub mod Install
pub mod Runtime
pub mod Main
