-- ===== src/FlutterSdk/Releases.antt =====
-- `RELEASES`, `ARCH_RELEASES` and the choice that `main` makes from them.
pub mod Integrity
use yuelink_ci.Prelude.{String, List, [], ◌∷◌, Option, none, some, ◌==◌, ◌&&◌}
use yuelink_ci.Prelude.{if◌then◌else◌, string_eq}

-- An entry of a table: its key, the archive's name and the archive's SHA-256.
pub record Entry : Type 0 where
  pub version : String
  pub system : String
  pub arch : String
  pub archive : String
  pub sha256 : String

-- `RELEASES`, whose keys have no architecture.
unfoldable pub releases : List Entry
releases =
    record {
      version = "3.47.2";
      system = "Linux";
      arch = "";
      archive = "stable/linux/flutter_linux_3.47.2-stable.tar.xz";
      sha256 = "447878859d01ca9bfdb99a85f245af07ed8a15fedcd9d189c4749e8e92d1f185";
    }
    ∷ record {
      version = "3.47.2";
      system = "Darwin";
      arch = "";
      archive = "stable/macos/flutter_macos_3.47.2-stable.zip";
      sha256 = "b6fd6ba98c8503d5ee06a6670627b5b1c36167ece3427435ec83b66e9b28c6b5";
    }
    ∷ record {
      version = "3.47.2";
      system = "Windows";
      arch = "";
      archive = "stable/windows/flutter_windows_3.47.2-stable.zip";
      sha256 = "37934f2128a55d77a38baba12fd611157ed23a47bf7d2b7d17e9e84da118409d";
    }
    ∷ record {
      version = "3.47.3";
      system = "Linux";
      arch = "";
      archive = "stable/linux/flutter_linux_3.47.3-stable.tar.xz";
      sha256 = "988665565cad9091db1baa54bf6d3868bb40e29719592f3c3a164deefd4208e1";
    }
    ∷ record {
      version = "3.47.3";
      system = "Darwin";
      arch = "";
      archive = "stable/macos/flutter_macos_3.47.3-stable.zip";
      sha256 = "cd1e1a877db74b8928251225d38469077994e904b1b5bb359f3376c43ac0495c";
    }
    ∷ record {
      version = "3.47.3";
      system = "Windows";
      arch = "";
      archive = "stable/windows/flutter_windows_3.47.3-stable.zip";
      sha256 = "44822ab53afb543c6fb446c078ba4f495e3eeddaafb88d879bde606447ddce24";
    }
    ∷ record {
      version = "3.47.4";
      system = "Linux";
      arch = "";
      archive = "stable/linux/flutter_linux_3.47.4-stable.tar.xz";
      sha256 = "5b45f0ceda99b9bebdc873e7e69f6450aeb4c30f454b505e2e62fc9255a907d3";
    }
    ∷ record {
      version = "3.47.5";
      system = "Linux";
      arch = "";
      archive = "stable/linux/flutter_linux_3.47.5-stable.tar.xz";
      sha256 = "2132e990f236f8d22e7c6314b29a191a95b10d7cbcfec9b4e2e303d996652cbb";
    }
    ∷ record {
      version = "3.47.6";
      system = "Linux";
      arch = "";
      archive = "stable/linux/flutter_linux_3.47.6-stable.tar.xz";
      sha256 = "f1631b9c2c8b3529323db412b0d1beacf4a748f8783b0d7cf599a8fd5f461675";
    }
    ∷ record {
      version = "3.47.7";
      system = "Linux";
      arch = "";
      archive = "stable/linux/flutter_linux_3.47.7-stable.tar.xz";
      sha256 = "af7455f540df951184c7953fbe3cf884766e7541dacf8571f9f582db03dd6230";
    }
    ∷ record {
      version = "3.47.4";
      system = "Darwin";
      arch = "";
      archive = "stable/macos/flutter_macos_3.47.4-stable.zip";
      sha256 = "72ced0f81a5ea48f30d221699fa45378cdd1fa15426512444f32e4e1bee9db8b";
    }
    ∷ record {
      version = "3.47.5";
      system = "Darwin";
      arch = "";
      archive = "stable/macos/flutter_macos_3.47.5-stable.zip";
      sha256 = "a7893bb0feecd8bd066f4f7e850356f896a6fc3b862e6c506d21c76691a66b72";
    }
    ∷ record {
      version = "3.47.6";
      system = "Darwin";
      arch = "";
      archive = "stable/macos/flutter_macos_3.47.6-stable.zip";
      sha256 = "f1f68c777b2b34153e1631670445efbeb218f42a398be32bba2051476719b0a4";
    }
    ∷ record {
      version = "3.47.7";
      system = "Darwin";
      arch = "";
      archive = "stable/macos/flutter_macos_3.47.7-stable.zip";
      sha256 = "17d39b000a5d0681e3f7b61a105a36f6f31dd41ab9073f625fd466f38035f901";
    }
    ∷ record {
      version = "3.47.4";
      system = "Windows";
      arch = "";
      archive = "stable/windows/flutter_windows_3.47.4-stable.zip";
      sha256 = "31173300481bd06e377fd55ee84214689648b1817563efd7b450b7b78bdf351a";
    }
    ∷ record {
      version = "3.47.5";
      system = "Windows";
      arch = "";
      archive = "stable/windows/flutter_windows_3.47.5-stable.zip";
      sha256 = "0ccd71931f49c2fbe394b1eeb6d79af3d624058a043ea0d03d34160581624fb8";
    }
    ∷ record {
      version = "3.47.6";
      system = "Windows";
      arch = "";
      archive = "stable/windows/flutter_windows_3.47.6-stable.zip";
      sha256 = "a01bb0d26de91bc23c97cd9ccfaad281a612fb8304213fdd5df1119a09404796";
    }
    ∷ record {
      version = "3.47.7";
      system = "Windows";
      arch = "";
      archive = "stable/windows/flutter_windows_3.47.7-stable.zip";
      sha256 = "c2c875da25a1a1448d18ee4e8f398b2f6fce888b4775d8f9130538e16d826cb4";
    }
    ∷ record {
      version = "3.47.8";
      system = "Linux";
      arch = "";
      archive = "stable/linux/flutter_linux_3.47.8-stable.tar.xz";
      sha256 = "baf7dcc5a3dbba60fe863bf493a6cf203195621f7786eaa5a1bba02cd0d87dd2";
    }
    ∷ record {
      version = "3.47.8";
      system = "Darwin";
      arch = "";
      archive = "stable/macos/flutter_macos_3.47.8-stable.zip";
      sha256 = "b8a3c255a51a8c0c0943a4d5bdf9b26008c34f02febf69640c8aab413afd896f";
    }
    ∷ record {
      version = "3.47.8";
      system = "Windows";
      arch = "";
      archive = "stable/windows/flutter_windows_3.47.8-stable.zip";
      sha256 = "11e19ea3409808fe3b3765ea8149640c299e58cce6eda7c9f38fc1b4a193eb6e";
    }
    ∷ []

-- `ARCH_RELEASES`
unfoldable pub arch_releases : List Entry
arch_releases =
    record {
      version = "3.47.3";
      system = "Darwin";
      arch = "ARM64";
      archive = "stable/macos/flutter_macos_arm64_3.47.3-stable.zip";
      sha256 = "66144a7cd691059c8c73bfce24178fb9ea2c95d798db8d56d1e2411e760f6583";
    }
    ∷ record {
      version = "3.47.4";
      system = "Darwin";
      arch = "ARM64";
      archive = "stable/macos/flutter_macos_arm64_3.47.4-stable.zip";
      sha256 = "c6af6fa1d64946167b8637ba4c5a7bb3b8574729a1ebe931decd4924dbab7061";
    }
    ∷ record {
      version = "3.47.5";
      system = "Darwin";
      arch = "ARM64";
      archive = "stable/macos/flutter_macos_arm64_3.47.5-stable.zip";
      sha256 = "d4dd908b5f8f65515831b6d68ae33307a813f2b68947dded7a1994ee5ea7cead";
    }
    ∷ record {
      version = "3.47.6";
      system = "Darwin";
      arch = "ARM64";
      archive = "stable/macos/flutter_macos_arm64_3.47.6-stable.zip";
      sha256 = "a1946d3b6b3de15ce247dc89649df9035ce29e6b4e7ebe91919a25890ea2e79a";
    }
    ∷ record {
      version = "3.47.7";
      system = "Darwin";
      arch = "ARM64";
      archive = "stable/macos/flutter_macos_arm64_3.47.7-stable.zip";
      sha256 = "dd9da574c3168460550117eb0e8dd0313ae934fabf64a82a6d557fff5fd1422e";
    }
    ∷ record {
      version = "3.47.8";
      system = "Darwin";
      arch = "ARM64";
      archive = "stable/macos/flutter_macos_arm64_3.47.8-stable.zip";
      sha256 = "6114edc2dae3636cfefb7e4456a4510399ee856e324149b34dbacb509e329d05";
    }
    ∷ []

-- `table.get(key)`
unfoldable pub find_entry : String → String → String → List Entry → Option Entry
find_entry version system arch [] = none
find_entry version system arch (e ∷ es) =
    if e.version == version && e.system == system && e.arch == arch
    then some e
    else find_entry version system arch es

-- `first or second`, of two results of `get`.
abbrev pub or_else : Option Entry → Option Entry → Option Entry
or_else (some e) o = some e
or_else none o = o

-- `ARCH_RELEASES.get((version, system, runner_arch)) or RELEASES.get((version, system))`
unfoldable pub select_release : String → String → String → Option Entry
select_release version system runner_arch =
    or_else (find_entry version system runner_arch arch_releases)
      (find_entry version system "" releases)
