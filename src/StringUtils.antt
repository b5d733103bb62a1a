-- ===== src/StringUtils.antt =====
-- `StringUtils` (buildbox-common/buildboxcommon/buildboxcommon_stringutils.cpp): trimming a text at
-- its left end, its right end or both, by `isspace` or by a filter. A filter is a `std::function` to
-- `int` whose result is only tested against 0, so it is a Boolean test on a byte. The overloads that
-- take a `const std::string &` trim a copy, and have the results of those that trim in place.
pub mod Laws
mod Tests
use mathlib.Core.List.{reverse}
use buildbox_common.Prelude.{ℕ, Bool, ◌&&◌, ◌||◌, [], ◌∷◌, ◌==◌, leb, if◌then◌else◌, Text}

-- `std::isspace` in the C locale, which is the one that a program starts in.
unfoldable pub is_space : ℕ → Bool
is_space c = c == 32 || leb 9 c && leb c 13

-- `ltrim(s, filter)`
unfoldable pub ltrim_by : (ℕ → Bool) → Text → Text
ltrim_by filter [] = []
ltrim_by filter (c ∷ rest) = if filter c then ltrim_by filter rest else c ∷ rest

-- `rtrim(s, filter)`: the search runs over the reversed range.
unfoldable pub rtrim_by : (ℕ → Bool) → Text → Text
unfolding ltrim_by
rtrim_by filter s = reverse (ltrim_by filter (reverse s))

-- `trim(s, filter)`
unfoldable pub trim_by : (ℕ → Bool) → Text → Text
unfolding rtrim_by
trim_by filter s = rtrim_by filter (ltrim_by filter s)

unfoldable pub ltrim : Text → Text
unfolding ltrim_by
ltrim s = ltrim_by is_space s

unfoldable pub rtrim : Text → Text
unfolding rtrim_by
rtrim s = rtrim_by is_space s

unfoldable pub trim : Text → Text
unfolding ltrim rtrim
trim s = rtrim (ltrim s)
