-- ===== src/FlutterSdk/Main/Reported.antt =====
-- The version that the installed SDK reports, and the lines for the actions.
use yuelink_ci.Prelude.{
  ◌≡◌, refl, sym, ap, String, ◌<>◌, true, List, [], ◌∷◌, ◌++◌, Option, none, some, arith, ==→eq,
  string_eq,
}
use yuelink_ci.Prelude.Result.{Result, ok, err, >>=-eq-ok}
use yuelink_ci.Json.{Json, str, Fields, get, is_text}
use yuelink_ci.FlutterSdk.Runtime.{
  Probe, version_command, parse_machine_document, probed, verify_runtime,
}
use yuelink_ci.FlutterSdk.Main.{
  Environment, append_line, target_of, with_line, after_path, after_verify, executable_of, finish,
}

pub is_text-eq : (t : String) (v : Option Json) → is_text t v ≡ true → v ≡ some (str t)
is_text-eq t (some (str s)) h = ap (λ u. some (str u)) (==→eq s t h)
is_text-eq t v h = ground arith

probed-eq-ok : (r : Result Fields) {fs : Fields} → probed r ≡ ok fs → r ≡ ok fs
probed-eq-ok (ok gs) h = h
probed-eq-ok (err e) h = cc

-- The line stands in the file that is named.
appended-line :
    (file : Option String) (value : String) (ls : List (String × String))
    → append_line file value ≡ ok ls
    → (path : String) × (file ≡ some path) × (ls ≡ (path, value) ∷ [])
unfolding append_line
appended-line none value ls h = cc
appended-line (some path) value ls h = (path, refl, ground arith)

abbrev Lines : Type 0
Lines = List (String × String)

with_line-eq-ok :
    (r : Result Lines) (before lines : Lines)
    → with_line r before ≡ (ok tt, lines)
    → (new : Lines) × (r ≡ ok new) × (lines ≡ before ++ new)
with_line-eq-ok (ok new) before lines h = (new, refl, sym (ap (λ p. p.1) h))
with_line-eq-ok (err e) before lines h = absurd (ground (arith, ap (λ p. p.0) h))

after_path-eq-ok :
    (env : Environment) (r : Result Lines) (lines : Lines)
    → after_path env (with_line r []) ≡ (ok tt, lines)
    → (a b : Lines) × (r ≡ ok a)
      × (append_line env.github_output ("flutter-root=" <> target_of env) ≡ ok b)
      × (lines ≡ a ++ b)
after_path-eq-ok env (ok a) lines h =
    let (b, one, same) = with_line-eq-ok _ a lines h in (a, b, refl, one, same)
after_path-eq-ok env (err e) lines h = absurd (ground (arith, ap (λ p. p.0) h))

after_verify-eq-ok :
    (env : Environment) (r : Result (Unit {0})) (lines : Lines)
    → after_verify env r ≡ (ok tt, lines)
    → (r ≡ ok tt)
      × ((a b : Lines) × (append_line env.github_path (target_of env <> env.separator <> "bin")
            ≡ ok a)
          × (append_line env.github_output ("flutter-root=" <> target_of env) ≡ ok b)
          × (lines ≡ a ++ b))
after_verify-eq-ok env (ok tt) lines h = (refl, after_path-eq-ok env _ lines h)
after_verify-eq-ok env (err e) lines h = absurd (ground (arith, ap (λ p. p.0) h))

module _ (raw_decode : String → Option (Json × String)) (strip : String → String)
    (probe : Probe) where
  -- The SDK answered the version command with one document that names the version.
  pub record IsReported (env : Environment) : Type 0 where
    pub command : List String
    pub stdout : String
    pub document : Fields
    pub asked : version_command probe (executable_of env) env.system ≡ ok command
    pub answered : probe.run command ≡ ok stdout
    pub read : parse_machine_document raw_decode strip stdout ≡ ok document
    pub same : get "frameworkVersion" document ≡ some (str env.version)

  verify_runtime-IsReported :
      (env : Environment)
      → verify_runtime raw_decode strip probe (executable_of env) env.version env.system ≡ ok tt
      → IsReported env
  unfolding verify_runtime
  verify_runtime-IsReported env h =
      let (command, one, h1) =
        >>=-eq-ok (version_command probe (executable_of env) env.system) _ h in
      let (stdout, two, h2) = >>=-eq-ok (probe.run command) _ h1 in
      let (document, three, last) =
        >>=-eq-ok (probed (parse_machine_document raw_decode strip stdout)) _ h2 in
      record {
        command = command;
        stdout = stdout;
        document = document;
        asked = one;
        answered = two;
        read = probed-eq-ok _ three;
        same = is_text-eq env.version (get "frameworkVersion" document) (ground arith);
      }

  -- The two lines of the actions' files.
  pub record IsAppended (env : Environment) (lines : List (String × String)) : Type 0 where
    pub path_file : String
    pub output_file : String
    pub path : env.github_path ≡ some path_file
    pub output : env.github_output ≡ some output_file
    pub appended :
        lines
        ≡ (path_file, target_of env <> env.separator <> "bin")
          ∷ (output_file, "flutter-root=" <> target_of env)
          ∷ []

  pub finish-IsReported :
      (env : Environment) (lines : List (String × String))
      → finish raw_decode strip probe env ≡ (ok tt, lines)
      → IsReported env × IsAppended env lines
  unfolding finish
  finish-IsReported env lines h =
      let (verified, (a, b, one, two, same)) = after_verify-eq-ok env _ lines h in
      let (path_file, path, first) = appended-line env.github_path _ a one in
      let (output_file, output, second) = appended-line env.github_output _ b two in
      (
        verify_runtime-IsReported env verified,
        record {
          path_file = path_file;
          output_file = output_file;
          path = path;
          output = output;
          appended = rw (same, first, second) refl;
        },
      )
