-- ===== src/Path/Relative/Below.antt =====
-- A path below the working directory, made relative and absolute again.
use buildbox_common.Prelude.{ℕ, suc, ◌≡◌, refl, ap, true, false, [], ◌∷◌, ◌++◌, some, arith, Text}
use buildbox_common.Path.{slash, is_absolute, normalize_path, ends_with_slash}
use buildbox_common.Path.Relative.{
  keep_slash, make_path_absolute, match_segments, make_path_relative,
}

below :
    (path cwd rest : Text) (c q index last_matching : ℕ)
    → ends_with_slash (c ∷ cwd) ≡ false
    → match_segments path (c ∷ (cwd ++ slash ∷ q ∷ rest)) (c ∷ cwd) index last_matching ≡ q ∷ rest
unfolding match_segments ends_with_slash
below path [] rest c q index last_matching h = ground (arith)
below path (d ∷ cwd) rest c q index last_matching h = ground (
  arith,
  below path cwd rest d q (suc index) index h,
  below path cwd rest d q (suc index) last_matching h,
)

ends-below :
    (cwd rest : Text) (q : ℕ)
    → ends_with_slash (cwd ++ slash ∷ q ∷ rest) ≡ ends_with_slash (q ∷ rest)
unfolding ends_with_slash
ends-below [] rest q = refl
ends-below (c ∷ []) rest q = refl
ends-below (c ∷ d ∷ cwd) rest q = ends-below (d ∷ cwd) rest q

relative-below :
    (cwd rest : Text) (q : ℕ)
    → is_absolute cwd ≡ true
    → ends_with_slash cwd ≡ false
    → make_path_relative (cwd ++ slash ∷ q ∷ rest) cwd ≡ some (q ∷ rest)
unfolding make_path_relative
relative-below [] rest q h k = cc
relative-below (c ∷ cwd) rest q h k =
    rw h (ap some (below (c ∷ (cwd ++ slash ∷ q ∷ rest)) cwd rest c q 0 0 k))

-- A path that lies below an absolute working directory, which is written without a slash at its end,
-- is made relative by leaving the directory out, and what is left is made absolute to the normal form
-- of the path, with the slash at its end if it has one.
pub make_path_absolute-relative :
    (cwd rest : Text) (q : ℕ)
    → is_absolute cwd ≡ true
    → ends_with_slash cwd ≡ false
    → is_absolute (q ∷ rest) ≡ false
    → (make_path_relative (cwd ++ slash ∷ q ∷ rest) cwd ≡ some (q ∷ rest))
      × (make_path_absolute (q ∷ rest) cwd
          ≡ some (keep_slash (cwd ++ slash ∷ q ∷ rest) (normalize_path (cwd ++ slash ∷ q ∷ rest))))
unfolding make_path_absolute
make_path_absolute-relative cwd rest q h k r =
    (relative-below cwd rest q h k, rw (h, r, ends-below cwd rest q) refl)
