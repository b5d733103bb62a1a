-- ===== src/Path/Tests.antt =====
-- Paths of the kinds that the code tells apart.
use mathlib.Core.List.{reverse}
use buildbox_common.Prelude.{◌≡◌, refl, inl, inr, Bool, true, false, some, Text, codes}
use buildbox_common.Path.{
  is_absolute, normalize_path, print_path, join_path_segments_no_escape, path_basename,
}
use buildbox_common.Path.Normal.{IsNormal, segments_of}
use buildbox_common.Path.Print.{normalize_path-IsNormal}
use buildbox_common.Path.Relative.{keep_slash, make_path_absolute, make_path_relative}
use buildbox_common.Path.Relative.Below.{make_path_absolute-relative}
use buildbox_common.Path.NoEscape.{IsInside, no_escape-IsInside}

abbrev base : Text
base = codes "/srv/./cas/"

normalized : normalize_path (codes "a//b/../../../c/./") ≡ codes "../c"
unfolding normalize_path buildbox_common.Prelude.drop_last
normalized = refl

basename : path_basename (codes "/srv/cas/") ≡ codes "cas"
unfolding path_basename
basename = refl

joined_inside : join_path_segments_no_escape base (codes "x/../y") false ≡ some (codes "/srv/cas/y")
unfolding join_path_segments_no_escape normalize_path buildbox_common.Prelude.drop_last
    buildbox_common.Path.is_below buildbox_common.Prelude.starts_with
joined_inside = refl

no_escape-IsInside_example : IsInside base (codes "/srv/cas/y")
no_escape-IsInside_example =
    no_escape-IsInside base (codes "x/../y") (codes "/srv/cas/y") false (inl refl) joined_inside

normalize_path-IsNormal_example :
    (is_absolute (normalize_path base) ≡ is_absolute base)
    × (normalize_path base
        ≡ print_path (is_absolute base) (reverse (segments_of (normalize_path base))))
    × IsNormal (is_absolute base) (segments_of (normalize_path base))
normalize_path-IsNormal_example = normalize_path-IsNormal base

-- A sibling, a path above, the directory itself, and a name that only begins like the directory's.
sibling : make_path_relative (codes "/a/b/c/e/f") (codes "/a/b/c/d") ≡ some (codes "../e/f")
unfolding make_path_relative buildbox_common.Path.Relative.match_segments
    buildbox_common.Path.Relative.climb buildbox_common.Path.Relative.dot_dots
    buildbox_common.Path.Relative.count_up
sibling = refl

above : make_path_relative (codes "/a/") (codes "/a/b/c/d/") ≡ some (codes "../../../")
unfolding make_path_relative buildbox_common.Path.Relative.match_segments
    buildbox_common.Path.Relative.climb buildbox_common.Path.Relative.dot_dots
    buildbox_common.Path.Relative.count_up
above = refl

front : make_path_relative (codes "/a") (codes "/a/b/c/d") ≡ some (codes "../../..")
unfolding make_path_relative buildbox_common.Path.Relative.match_segments
    buildbox_common.Path.Relative.climb buildbox_common.Path.Relative.dot_dots
    buildbox_common.Path.Relative.count_up
front = refl

itself : make_path_relative (codes "/some/test/path/") (codes "/some/test/path") ≡ some (codes "./")
unfolding make_path_relative buildbox_common.Path.Relative.match_segments
itself = refl

longer : make_path_relative (codes "/abc") (codes "/ab") ≡ some (codes "../abc")
unfolding make_path_relative buildbox_common.Path.Relative.match_segments
    buildbox_common.Path.Relative.climb buildbox_common.Path.Relative.dot_dots
    buildbox_common.Path.Relative.count_up
longer = refl

make_path_absolute-relative_example :
    (make_path_relative (codes "/srv/cas/x/../y/") (codes "/srv/cas") ≡ some (codes "x/../y/"))
    × (make_path_absolute (codes "x/../y/") (codes "/srv/cas")
        ≡ some (keep_slash (codes "/srv/cas/x/../y/") (normalize_path (codes "/srv/cas/x/../y/"))))
unfolding buildbox_common.Path.ends_with_slash
make_path_absolute-relative_example =
    make_path_absolute-relative (codes "/srv/cas") (codes "/../y/") b'x' refl refl refl
