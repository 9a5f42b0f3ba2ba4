-- ===== src/Paths.antt =====
-- What the program uses of Go's package `path/filepath`, on a system whose separator is "/".
pub mod Inside
mod Examples
use mathlib.Core.List.{reverse}
use modigo_runner.Base.{
  ℕ, ◌≡◌, Bool, true, false, ◌&&◌, ◌||◌, List, [], ◌∷◌, ◌++◌, Text, codes, text_eq, is_empty, split,
  has_prefix, if◌then◌else◌, ◌==◌,
}

abbrev pub dot : Text
dot = codes "."

abbrev pub dot_dot : Text
dot_dot = codes ".."

abbrev pub slash : ℕ
slash = b'/'

unfoldable pub go_up : Bool → List Text → List Text
go_up true [] = []
go_up false [] = dot_dot ∷ []
go_up rooted (s ∷ ss) = if text_eq s dot_dot then dot_dot ∷ s ∷ ss else ss

-- One segment of a path against the segments before it, the last of them at the head.
unfoldable pub resolve : Bool → List Text → Text → List Text
resolve rooted stack seg =
    if is_empty seg || text_eq seg dot
    then stack
    else if text_eq seg dot_dot
    then go_up rooted stack
    else seg ∷ stack

unfoldable pub resolve_all : Bool → List Text → List Text → List Text
resolve_all rooted stack [] = stack
resolve_all rooted stack (seg ∷ segs) = resolve_all rooted (resolve rooted stack seg) segs

-- `strings.Join(segs, "/")`
unfoldable pub join_segments : List Text → Text
join_segments [] = []
join_segments (s ∷ []) = s
join_segments (s ∷ t ∷ ss) = s ++ slash ∷ join_segments (t ∷ ss)

abbrev pub is_rooted : Text → Bool
is_rooted [] = false
is_rooted (c ∷ s) = c == slash

-- `filepath.Clean` as its segments, the last at the head.
unfoldable pub clean_stack : Text → List Text
clean_stack path = resolve_all (is_rooted path) [] (split path slash)

unfoldable pub render : Bool → List Text → Text
render true stack = slash ∷ join_segments (reverse stack)
render false [] = dot
render false (s ∷ ss) = join_segments (reverse (s ∷ ss))

unfoldable pub clean : Text → Text
clean path = render (is_rooted path) (clean_stack path)

-- `filepath.Join(dir, name)`
unfoldable pub join : Text → Text → Text
join [] [] = []
join [] (c ∷ name) = clean (c ∷ name)
join (c ∷ dir) [] = clean (c ∷ dir)
join (c ∷ dir) (d ∷ name) = clean ((c ∷ dir) ++ slash ∷ d ∷ name)

unfoldable pub last_segment : List Text → Text
last_segment [] = []
last_segment (s ∷ []) = s
last_segment (s ∷ t ∷ ss) = last_segment (t ∷ ss)

abbrev is_slash : ℕ → Bool
is_slash c = c == slash

unfoldable pub drop_slashes : Text → Text
drop_slashes [] = []
drop_slashes (c ∷ s) = if is_slash c then drop_slashes s else c ∷ s

-- `filepath.Base`: trailing slashes go first.
unfoldable pub base : Text → Text
base path =
    let name = last_segment (split (reverse (drop_slashes (reverse path))) slash) in
    if is_empty path then dot else if is_empty name then slash ∷ [] else name

-- Up to the last slash, which is kept.
unfoldable pub through_last_slash : Text → Text
through_last_slash [] = []
through_last_slash (c ∷ s) =
    let rest = through_last_slash s in
    if is_empty rest then (if is_slash c then c ∷ [] else []) else c ∷ rest

unfoldable pub dir : Text → Text
dir path = clean (through_last_slash path)

-- From the last dot of the reversed name on, or nothing if a slash or the end comes first.
unfoldable pub extension : Text → Text → Text
extension acc [] = []
extension acc (c ∷ s) =
    let rest = extension (c ∷ acc) s in
    if is_slash c then [] else if c == b'.' then c ∷ acc else rest

unfoldable pub ext : Text → Text
ext path = extension [] (reverse path)
