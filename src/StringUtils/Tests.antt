-- ===== src/StringUtils/Tests.antt =====
-- Trimming a line.
use buildbox_common.Prelude.{◌≡◌, refl, ◌++◌, Text, codes}
use buildbox_common.StringUtils.{trim_by, trim, is_space}
use buildbox_common.StringUtils.Laws.{AllTaken, StartsClean, EndsClean, trim_split}

abbrev line : Text
line = codes " \ta b\n"

trimmed : trim line ≡ codes "a b"
unfolding trim is_space
trimmed = refl

trim_split_example :
    (front back : Text) × (line ≡ front ++ (trim_by is_space line ++ back))
    × AllTaken is_space front
    × AllTaken is_space back
    × StartsClean is_space (trim_by is_space line)
    × EndsClean is_space (trim_by is_space line)
trim_split_example = trim_split is_space line
