-- ===== src/FlutterSdk/Paths.antt =====
-- `_safe_member`, `_safe_tar_link` and `inspect_archive`: no member of an archive may leave the
-- folder that it is extracted to. A path is a list of code points, and its parts are those of
-- `PurePosixPath`.
pub mod Inside
use yuelink_ci.Prelude.{
  ℕ, String, Bool, true, false, not, ◌&&◌, ◌||◌, List, [], ◌∷◌, ◌++◌, map, codes,
}
use yuelink_ci.Prelude.{split, contains, is_letter, ◌==◌, nat_eq, list_eq, if◌then◌else◌}
use yuelink_ci.Prelude.Result.{Result, ok, ◌>>=◌, ◌>>◌, raise_if}

abbrev pub FilePath : Type 0
FilePath = List ℕ

-- `name.replace("\\", "/")`
abbrev pub normalize : FilePath → FilePath
normalize = map (λ c. if c == b'\\' then b'/' else c)

abbrev pub slash : FilePath
slash = b'/' ∷ []

abbrev pub parent_mark : FilePath
parent_mark = codes ".."

-- The parts without the empty ones and the dots.
unfoldable pub keep_parts : List FilePath → List FilePath
keep_parts [] = []
keep_parts (p ∷ ps) = if p == [] || p == codes "." then keep_parts ps else p ∷ keep_parts ps

-- The root of an absolute path: two slashes stay, one or more than two are one.
unfoldable pub root : FilePath → List FilePath
root [] = []
root (c ∷ []) = if c == b'/' then slash ∷ [] else []
root (c ∷ d ∷ []) =
    if c == b'/' then (if d == b'/' then (b'/' ∷ slash) ∷ [] else slash ∷ []) else []
root (c ∷ d ∷ e ∷ cs) =
    if c == b'/'
    then (if d == b'/' && not (e == b'/') then (b'/' ∷ slash) ∷ [] else slash ∷ [])
    else []

-- `PurePosixPath(path).parts`
unfoldable pub parts : FilePath → List FilePath
parts cs = root cs ++ keep_parts (split b'/' cs)

-- `PurePosixPath(path).is_absolute()`
unfoldable pub is_absolute : FilePath → Bool
is_absolute [] = false
is_absolute (c ∷ cs) = c == b'/'

-- `re.match(r"^[A-Za-z]:/", path)`
unfoldable pub has_drive : FilePath → Bool
has_drive (c ∷ d ∷ e ∷ cs) = is_letter c && d == b':' && e == b'/'
has_drive cs = false

unfoldable pub safe_member : FilePath → Bool
safe_member name =
    let path = normalize name in
    not (path == [])
    && not (is_absolute path)
    && not (has_drive path)
    && not (contains (parts path) parent_mark)

-- The parts without the last.
unfoldable pub drop_last : List FilePath → List FilePath
drop_last [] = []
drop_last (p ∷ []) = []
drop_last (p ∷ q ∷ ps) = p ∷ drop_last (q ∷ ps)

-- `PurePosixPath(path).parent.parts`: a root alone is its own parent.
unfoldable pub parent_parts : FilePath → List FilePath
parent_parts cs = root cs ++ drop_last (keep_parts (split b'/' cs))

-- `part in ("", ".")`
abbrev pub is_skipped : FilePath → Bool
is_skipped p = p == [] || p == codes "."

-- The loop of `_safe_tar_link`, with the last of `resolved` first: whether no part climbs out of
-- the archive and `resolved` is not empty at the end.
unfoldable pub resolve : List FilePath → List FilePath → Bool
resolve [] [] = false
resolve (r ∷ rs) [] = true
resolve [] (p ∷ ps) =
    let skip = resolve [] ps in
    let down = resolve (p ∷ []) ps in
    if is_skipped p then skip else if p == parent_mark then false else down
resolve (r ∷ rs) (p ∷ ps) =
    let skip = resolve (r ∷ rs) ps in
    let up = resolve rs ps in
    let down = resolve (p ∷ r ∷ rs) ps in
    if is_skipped p then skip else if p == parent_mark then up else down

-- `base`
abbrev pub link_base : FilePath → Bool → List FilePath
link_base member_name hard_link = if hard_link then [] else parent_parts member_name

unfoldable pub safe_tar_link : FilePath → FilePath → Bool → Bool
safe_tar_link member_name link_name hard_link =
    let link = normalize link_name in
    if link == [] || (is_absolute link || has_drive link)
    then false
    else resolve [] (link_base member_name hard_link ++ parts link)

-- What a tar member is.
pub data Kind : Type 0 where
  regular character block fifo symbolic_link hard_link : Kind

pub record TarMember : Type 0 where
  pub name : FilePath
  pub kind : Kind
  pub linkname : FilePath

abbrev pub is_special : Kind → Bool
is_special character = true
is_special block = true
is_special fifo = true
is_special k = false

-- Whether the member is a link whose target may leave the archive.
abbrev pub is_unsafe_link : TarMember → Kind → Bool
is_unsafe_link m symbolic_link = not (safe_tar_link m.name m.linkname false)
is_unsafe_link m hard_link = not (safe_tar_link m.name m.linkname true)
is_unsafe_link m k = false

-- The loop over the members of a tar archive; `fail` raises.
unfoldable pub inspect_tar : List TarMember → Result (Unit {0})
inspect_tar [] = ok tt
inspect_tar (m ∷ ms) = do
  raise_if (not (safe_member m.name)) "unsafe tar member"
  raise_if (is_special m.kind) "special tar member"
  raise_if (is_unsafe_link m m.kind) "unsafe tar link"
  inspect_tar ms

-- The loop over the names in a zip archive.
unfoldable pub inspect_zip : List FilePath → Result (Unit {0})
inspect_zip [] = ok tt
inspect_zip (name ∷ names) = do
  raise_if (not (safe_member name)) "unsafe zip member"
  inspect_zip names
