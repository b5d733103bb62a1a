-- ===== src/Path.antt =====
-- The path functions of `FileUtils` that touch no file
-- (buildbox-common/buildboxcommon/buildboxcommon_fileutils.cpp). A path is the list of its bytes.
pub mod Split
pub mod Normal
pub mod Print
pub mod NoEscape
pub mod Relative
mod Tests
use mathlib.Core.List.{reverse}
use buildbox_common.Prelude.{
  ℕ, zero, suc, Bool, true, false, not, ◌&&◌, ◌||◌, List, [], ◌∷◌, ◌++◌, Option, none, some, ◌==◌,
  ltb, if◌then◌else◌, Text, text_eq, codes, length, starts_with, drop_last,
}

abbrev pub slash : ℕ
slash = b'/'

-- `strchr(path, '/')`: what stands before the first slash, and what stands after it, if there is one.
unfoldable pub cut : Text → Text × Option Text
cut [] = ([], none)
cut (c ∷ rest) =
    let (before, after) = cut rest in if c == slash then ([], some rest) else (c ∷ before, after)

abbrev pub dot_dot : Text
dot_dot = codes ".."

-- `!segments.empty() && segments.back() != ".."`. The segments are kept last first.
unfoldable pub can_pop : List Text → Bool
can_pop [] = false
can_pop (s ∷ _) = not (text_eq s dot_dot)

abbrev pop_back : List Text → List Text
pop_back [] = []
pop_back (_ ∷ rest) = rest

unfoldable pub is_nil : List Text → Bool
is_nil [] = true
is_nil (_ ∷ _) = false

-- The three tests of the loop of `normalizePath`, on one segment.
pub push_segment : Bool → List Text → Text → List Text
unfolding can_pop is_nil text_eq
push_segment global segments segment =
    if text_eq segment dot_dot && can_pop segments
    then pop_back segments
    else if global && text_eq segment dot_dot && is_nil segments
    then segments
    else if not (text_eq segment (codes ".")) && not (text_eq segment [])
    then segment ∷ segments
    else segments

-- The loop of `normalizePath`. Each round but the last drops a slash of the path.
pub scan_segments : ℕ → Bool → Text → List Text → List Text
scan_segments zero global path segments = segments
scan_segments (suc fuel) global [] segments = segments
scan_segments (suc fuel) global (c ∷ cs) segments =
    let (segment, after) = cut (c ∷ cs) in
    let pushed = push_segment global segments segment in
    elim after [ none ↦ pushed | some rest ↦ scan_segments fuel global rest pushed ]

-- `for (const auto &segment : segments) result += segment + "/";`
pub append_segments : Text → List Text → Text
append_segments result [] = result
append_segments result (segment ∷ rest) = append_segments (result ++ (segment ++ slash ∷ [])) rest

-- The end of `normalizePath`, on its segments in order.
unfoldable pub print_path : Bool → List Text → Text
unfolding append_segments
print_path global [] = if global then slash ∷ [] else codes "."
print_path global (s ∷ rest) =
    drop_last (append_segments (if global then slash ∷ [] else []) (s ∷ rest))

-- `path[0] == '/'`, `path.front() == '/'`
abbrev pub is_absolute : Text → Bool
is_absolute [] = false
is_absolute (c ∷ _) = c == slash

-- `FileUtils::normalizePath`
unfoldable pub normalize_path : Text → Text
unfolding scan_segments push_segment cut print_path
normalize_path path =
    print_path (is_absolute path) (reverse (scan_segments (length path) (is_absolute path) path []))

-- A `std::runtime_error` is `none`.
-- `FileUtils::joinPathSegments`
unfoldable pub join_path_segments : Text → Text → Bool → Option Text
join_path_segments [] second force_relative = none
join_path_segments (c ∷ cs) [] force_relative = none
join_path_segments (c ∷ cs) (d ∷ ds) force_relative =
    let first_normalized = normalize_path (c ∷ cs) in
    let second_normalized = normalize_path (d ∷ ds) in
    if not force_relative && is_absolute second_normalized
    then some second_normalized
    else some (normalize_path (first_normalized ++ slash ∷ second_normalized))

-- `substr(0, 3) != "../"` and `!= ".."`: the path does not begin with a dot-dot segment.
abbrev pub leads_out : Text → Bool
leads_out path = text_eq path dot_dot || starts_with (codes "../") path

-- `joinedPath.find(base) == 0`, and the byte that follows is a slash. The `.at()` is in range:
-- `joinedPath` is longer than `base`, since it begins with it and differs from it.
unfoldable pub is_below : Text → Text → Bool
is_below base joined = starts_with (base ++ slash ∷ []) joined

-- The tests of `joinPathSegmentsNoEscape` on the normalized base, the normalized second path and the
-- joined path.
unfoldable pub escapes : Text → Text → Text → Bool
escapes base within joined =
    if text_eq joined base
    then false
    else if text_eq base (codes "/") || text_eq base [] || text_eq base (codes ".")
    then leads_out within
    else not (is_below base joined)

-- `FileUtils::joinPathSegmentsNoEscape`
unfoldable pub join_path_segments_no_escape : Text → Text → Bool → Option Text
unfolding join_path_segments escapes
join_path_segments_no_escape basedir path_within force_relative =
    let base = normalize_path basedir in
    let within = normalize_path path_within in
    elim (join_path_segments basedir within force_relative) [
      | none ↦ none
      | some joined ↦ if escapes base within joined then none else some joined
    ]

-- `rfind('/')`: what stands before and after the last slash.
unfoldable pub cut_last : Text → Option (Text × Text)
cut_last [] = none
cut_last (c ∷ rest) = elim (cut_last rest) [
  | some (before, after) ↦ some (c ∷ before, after)
  | none ↦ if c == slash then some ([], rest) else none
]

unfoldable pub ends_with_slash : Text → Bool
ends_with_slash [] = false
ends_with_slash (c ∷ []) = c == slash
ends_with_slash (c ∷ d ∷ rest) = ends_with_slash (d ∷ rest)

-- `basename.substr(0, basename.rfind('/'))`; the whole text where there is no slash.
abbrev pub before_last : Text → Text
before_last path = elim (cut_last path) [ none ↦ path | some (before, _) ↦ before ]

abbrev after_last : Text → Text
after_last path = elim (cut_last path) [ none ↦ [] | some (_, after) ↦ after ]

-- `FileUtils::pathBasename`
unfoldable pub path_basename : Text → Text
unfolding cut_last ends_with_slash
path_basename path =
    if ltb (length path) 2
    then []
    else after_last (if ends_with_slash path then before_last path else path)
