-- ===== src/Path/Normal.antt =====
-- The segments that the loop of `normalizePath` keeps, and that normalizing is idempotent.
use mathlib.Core.List.{foldl, foldl-append, reverse, reverse-cons}
use buildbox_common.Prelude.{
  ◌≡◌, refl, Bool, true, false, not, ◌&&◌, List, [], ◌∷◌, arith, ◌==◌, if◌then◌else◌, Text, text_eq,
  codes, length, All,
}
use buildbox_common.Path.{
  slash, dot_dot, is_nil, can_pop, push_segment, print_path, is_absolute, normalize_path,
}
use buildbox_common.Path.Split.{split, cons_head, scan-split}

abbrev pub no_slash : Text → Bool
no_slash [] = true
no_slash (c ∷ rest) = not (c == slash) && no_slash rest

-- The segments that the loop keeps, last first: no empty one, no dot, no slash within one, and a
-- dot-dot only where all below it are dot-dots and the path is relative.
abbrev pub IsNormal : Bool → List Text → Type 0
IsNormal global [] = Unit
IsNormal global (s ∷ rest) =
    (no_slash s ≡ true)
    × (text_eq s [] ≡ false)
    × (text_eq s (codes ".") ≡ false)
    × (text_eq s dot_dot ≡ true → (global ≡ false) × (can_pop rest ≡ false))
    × IsNormal global rest

split-no_slash : (p : Text) → All (λ s. no_slash s ≡ true) (split p)
unfolding split
split-no_slash [] = (refl, tt)
split-no_slash (c ∷ rest) = go (split rest) (split-no_slash rest)
  where
    go :
        (more : List Text)
        → All (λ s. no_slash s ≡ true) more
        → All (λ s. no_slash s ≡ true) (if c == slash then [] ∷ more else cons_head c more)
    go [] h = ground arith
    go (s ∷ r) h = ground arith

push-IsNormal :
    (global : Bool) (stack : List Text) (s : Text)
    → no_slash s ≡ true
    → IsNormal global stack
    → IsNormal global (push_segment global stack s)
unfolding push_segment can_pop is_nil
push-IsNormal true [] s n h = ground arith
push-IsNormal false [] s n h = ground arith
push-IsNormal true (t ∷ stack) s n h = ground arith
push-IsNormal false (t ∷ stack) s n h = ground arith

fold-IsNormal :
    (global : Bool) (stack segments : List Text)
    → All (λ s. no_slash s ≡ true) segments
    → IsNormal global stack
    → IsNormal global (foldl (push_segment global) stack segments)
fold-IsNormal global stack [] n h = h
fold-IsNormal global stack (s ∷ rest) n h =
    fold-IsNormal global (push_segment global stack s) rest n.1 (push-IsNormal global stack s n.0 h)

-- The segments of a path, last first, that its normalized form is printed from.
unfoldable pub segments_of : Text → List Text
segments_of p = foldl (push_segment (is_absolute p)) [] (split p)

pub segments_of-IsNormal : (p : Text) → IsNormal (is_absolute p) (segments_of p)
unfolding segments_of
segments_of-IsNormal p = fold-IsNormal (is_absolute p) [] (split p) (split-no_slash p) tt

pub normalize-segments_of :
    (p : Text) → normalize_path p ≡ print_path (is_absolute p) (reverse (segments_of p))
unfolding normalize_path segments_of
normalize-segments_of p = rw (scan-split (length p) (is_absolute p) p [] (omega arith))

-- A kept segment is pushed as it stands.
push_normal :
    (global : Bool) (stack : List Text) (s : Text)
    → IsNormal global (s ∷ stack)
    → push_segment global stack s ≡ s ∷ stack
unfolding push_segment
push_normal true stack s h = ground arith
push_normal false stack s h = ground arith

pub fold_normal :
    (global : Bool) (stack : List Text)
    → IsNormal global stack
    → foldl (push_segment global) [] (reverse stack) ≡ stack
fold_normal global [] h = refl
fold_normal global (s ∷ stack) h =
    rw (reverse-cons s stack, foldl-append)
      (rw (fold_normal global stack h.4) (push_normal global stack s h))
