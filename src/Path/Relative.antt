-- ===== src/Path/Relative.antt =====
-- `FileUtils::makePathAbsolute` and `FileUtils::makePathRelative`
-- (buildbox-common/buildboxcommon/buildboxcommon_fileutils.cpp). Where the source reads a byte at an index,
-- the model has the rest of the text from there on; no text holds a byte 0.
pub mod Below
use buildbox_common.Prelude.{
  ℕ, zero, suc, ◌+◌, ◌≡◌, refl, sym, ap, ◌∙◌, Bool, true, false, not, ◌&&◌, List, [], ◌∷◌, ◌++◌,
  append_assoc, Option, none, some, arith, ◌==◌, if◌then◌else◌, Text, codes, drop,
}
use buildbox_common.Path.{slash, is_absolute, normalize_path, ends_with_slash}

-- The trailing slash of `path`, which normalizing takes away.
abbrev pub keep_slash : Text → Text → Text
keep_slash path normalized =
    if ends_with_slash path && not (ends_with_slash normalized)
    then normalized ++ slash ∷ []
    else normalized

-- `makePathAbsolute`, for a path that is not empty; `none` is the exception.
unfoldable pub make_path_absolute : Text → Text → Option Text
make_path_absolute path cwd =
    if is_absolute cwd
    then some
        (keep_slash path (normalize_path (if is_absolute path then path else cwd ++ slash ∷ path)))
    else none

-- `dotdotsNeeded` after the second loop, over what is left of `cwd`.
unfoldable pub count_up : ℕ → Text → ℕ
count_up needed [] = needed
count_up needed (c ∷ []) = needed
count_up needed (c ∷ d ∷ rest) =
    let more = count_up (suc needed) (d ∷ rest) in
    let same = count_up needed (d ∷ rest) in if c == slash then more else same

-- The dots that take the place of the front of the path, with their slashes.
unfoldable pub dot_dots : ℕ → Text
dot_dots zero = []
dot_dots (suc zero) = codes ".."
dot_dots (suc (suc n)) = codes "../" ++ dot_dots (suc n)

-- The end of `makePathRelative`, for what is left of `cwd` and the end of the last segment that matches.
unfoldable pub climb : Text → Text → ℕ → Text
climb path rest_of_cwd last_matching = dot_dots (count_up 1 rest_of_cwd) ++ drop last_matching path

-- The test between the loops, for a path that is a front of `cwd`.
abbrev pub after_match : Text → Text → Text → ℕ → ℕ → Text
after_match path [] [] index last_matching = climb path [] last_matching
after_match path [] (c ∷ rest) index last_matching =
    if c == slash
    then elim rest [ [] ↦ codes "." | d ∷ more ↦ climb path (d ∷ more) index ]
    else climb path (c ∷ rest) last_matching
after_match path (p ∷ ps) rest index last_matching = climb path rest last_matching

-- The tests of the first loop when `cwd` ends: what is returned, if anything is.
abbrev pub at_end_of_cwd : ℕ → Text → Option Text
at_end_of_cwd c [] = some (if c == slash then codes "./" else codes ".")
at_end_of_cwd c (p ∷ []) =
    if p == slash then some (codes "./") else if c == slash then some (p ∷ []) else none
at_end_of_cwd c (p ∷ q ∷ rest) =
    if c == slash then some (p ∷ q ∷ rest) else if p == slash then some (q ∷ rest) else none

-- The first loop, on what is left of the path and of `cwd`.
unfoldable pub match_segments : Text → Text → Text → ℕ → ℕ → Text
match_segments path [] rest index last_matching = after_match path [] rest index last_matching
match_segments path (p ∷ ps) [] index last_matching =
    after_match path (p ∷ ps) [] index last_matching
match_segments path (p ∷ ps) (c ∷ []) index last_matching =
    if p == c
    then elim (at_end_of_cwd p ps) [
      | some result ↦ result
      | none ↦ after_match path ps [] (suc index) last_matching
    ]
    else after_match path (p ∷ ps) (c ∷ []) index last_matching
match_segments path (p ∷ ps) (c ∷ d ∷ rest) index last_matching =
    let on = match_segments path ps (d ∷ rest) (suc index) index in
    let within = match_segments path ps (d ∷ rest) (suc index) last_matching in
    if p == c
    then if p == slash then on else within
    else after_match path (p ∷ ps) (c ∷ d ∷ rest) index last_matching

-- `makePathRelative`
unfoldable pub make_path_relative : Text → Text → Option Text
make_path_relative path [] = some path
make_path_relative path (c ∷ cwd) =
    if is_absolute path
    then if c == slash then some (match_segments path path (c ∷ cwd) 0 0) else none
    else some path
