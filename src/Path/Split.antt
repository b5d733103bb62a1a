-- ===== src/Path/Split.antt =====
-- The segments of a path by structural recursion, the reference for the loop of `normalizePath`,
-- and the texts that have no slash.
use mathlib.Core.List.{foldl}
use buildbox_common.Prelude.{
  ℕ, zero, suc, ◌≤◌, ◌<◌, ◌≡◌, refl, inl, inr, Bool, true, false, List, [], ◌∷◌, Option, none, some,
  arith, ◌==◌, if◌then◌else◌, Option-cases, Text, length,
}
use buildbox_common.Path.{slash, cut, push_segment, scan_segments}

abbrev pub cons_head : ℕ → List Text → List Text
cons_head c [] = (c ∷ []) ∷ []
cons_head c (s ∷ rest) = (c ∷ s) ∷ rest

unfoldable pub split : Text → List Text
split [] = [] ∷ []
split (c ∷ rest) = let more = split rest in if c == slash then [] ∷ more else cons_head c more

abbrev pub split_after : Option Text → List Text
split_after none = []
split_after (some rest) = split rest

pub split-cut : (p : Text) → split p ≡ (cut p).0 ∷ split_after (cut p).1
unfolding split cut
split-cut [] = refl
split-cut (c ∷ rest) = ground (arith, split-cut rest)

cut-shorter : (p r : Text) → (cut p).1 ≡ some r → length r < length p
unfolding cut
cut-shorter [] r h = cc
cut-shorter (c ∷ rest) r h = ground (arith, cut-shorter rest r)

pub push_nil : (global : Bool) (stack : List Text) → push_segment global stack [] ≡ stack
unfolding push_segment
push_nil true stack = ground arith
push_nil false stack = ground arith

-- With fuel for each byte the loop is a fold over the segments.
pub scan-split :
    (fuel : ℕ) (global : Bool) (p : Text) (stack : List Text)
    → length p ≤ fuel
    → scan_segments fuel global p stack ≡ foldl (push_segment global) stack (split p)
unfolding scan_segments
scan-split zero global [] stack h = unfold split in rw push_nil
scan-split zero global (c ∷ cs) stack h = absurd (omega arith)
scan-split (suc fuel) global [] stack h = unfold split in rw push_nil
scan-split (suc fuel) global (c ∷ cs) stack h = elim (Option-cases (cut (c ∷ cs)).1) [
  | inl e ↦ rw (split-cut, e, scan_segments)
  | inr (rest, e) ↦
      rw (split-cut, e, scan_segments)
        (scan-split fuel global rest _ (omega (arith, cut-shorter (c ∷ cs) rest e)))
]
