-- ===== src/FlutterSdk/Runtime.antt =====
-- `parse_machine_document` and `verify_runtime`: the version that the installed SDK reports.
-- `JSONDecoder.raw_decode` at a brace is a parameter that gives the value and what follows it;
-- `str.strip`, `subprocess.list2cmdline` and the runs of commands are parameters, too.
use Prim.Native.Char.{code}
use yuelink_ci.Prelude.{
  String, ◌<>◌, Bool, true, false, not, ◌||◌, List, [], ◌∷◌, Option, some, any, contains, codes,
}
use yuelink_ci.Prelude.{◌==◌, string_eq, nat_eq, if◌then◌else◌}
use yuelink_ci.Prelude.Result.{Result, ok, err, value_error, ◌>>=◌, ◌>>◌, raise_if}
use yuelink_ci.Json.{Json, obj, Fields, get, is_text}

-- What stands from the brace on at each match of `(?m)^[ \t]*\{`; the test is whether only blanks
-- stand before on the line.
unfoldable pub documents : Bool → String → List String
unfolding nat_eq
documents at_start String.[] = []
documents at_start (String.◌∷◌ c s) =
    let here = documents true s in
    let inside = documents false s in
    if code c == b'\n'
    then here
    else if not at_start
    then inside
    else if code c == b' ' || code c == b'\t'
    then here
    else if code c == b'{'
    then String.◌∷◌ c s ∷ inside
    else inside

-- What the version probe of the source depends on.
pub record Probe : Type 0 where
  pub comspec : String
  pub comspec_is_file : Bool
  pub list2cmdline : List String → String
  pub run : List String → Result String

-- `re.search(r'[%!&|<>^()\r\n"]', path)`
unfoldable pub has_metacharacter : String → Bool
unfolding nat_eq
has_metacharacter path = any (λ c. contains (codes "%!&|<>^()\r\n\"") c) (codes path)

abbrev pub executable_name : String → String
executable_name system = if system == "Windows" then "flutter.bat" else "flutter"

-- The command that is run for the version.
unfoldable pub version_command : Probe → String → String → Result (List String)
version_command probe executable system =
    let command = executable ∷ "--version" ∷ "--machine" ∷ [] in
    if system == "Windows"
    then (do
      raise_if (probe.comspec == "" || not probe.comspec_is_file)
          "Windows command processor is absent"
      raise_if (has_metacharacter executable)
          "Windows Flutter path contains command-processor metacharacters"
      ok (probe.comspec ∷ "/d" ∷ "/s" ∷ "/c" ∷ ("call " <> probe.list2cmdline command) ∷ []))
    else ok command

abbrev pub probed : Result Fields → Result Fields
probed (ok fs) = ok fs
probed (err e) = err (value_error "Flutter version probe was not JSON")

module _ (raw_decode : String → Option (Json × String)) (strip : String → String) where
  -- `parsed_objects`
  unfoldable pub parsed_objects : List String → List (Fields × String)
  parsed_objects [] = []
  parsed_objects (text ∷ texts) = elim (raw_decode text) [
    | some (obj fs, rest) ↦ (fs, rest) ∷ parsed_objects texts
    | _ ↦ parsed_objects texts
  ]

  abbrev pub only_document : List (Fields × String) → Result Fields
  only_document ((fs, rest) ∷ []) =
      if strip rest == "" then ok fs else err (value_error "expected one final JSON object")
  only_document found = err (value_error "expected one final JSON object")

  unfoldable pub parse_machine_document : String → Result Fields
  parse_machine_document output = only_document (parsed_objects (documents true output))

  unfoldable pub verify_runtime : Probe → String → String → String → Result (Unit {0})
  verify_runtime probe executable version system = do
    command ← version_command probe executable system
    stdout ← probe.run command
    document ← probed (parse_machine_document stdout)
    raise_if (not (is_text version (get "frameworkVersion" document)))
        "Flutter runtime version mismatch"
