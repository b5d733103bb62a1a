-- ===== src/Path/Print.antt =====
-- What `normalizePath` prints, and that normalizing twice is normalizing once.
use mathlib.Core.List.{reverse, foldl, reverse-cons}
use buildbox_common.Prelude.{
  ◌⊎◌, inl, inr, ◌≡◌, refl, sym, ap, ◌∙◌, Bool, true, false, List, [], ◌∷◌, ◌++◌, append_assoc,
  arith, Text, text_eq, drop_last, drop_last-append, All, All-append,
}
use buildbox_common.Path.{
  slash, push_segment, append_segments, print_path, is_absolute, normalize_path,
}
use buildbox_common.Path.Split.{split, push_nil}
use buildbox_common.Path.Normal.{
  no_slash, IsNormal, segments_of, segments_of-IsNormal, normalize-segments_of, fold_normal,
}

-- The segments with a slash between each two.
unfoldable pub joined : Text → List Text → Text
joined s [] = s
joined s (t ∷ rest) = s ++ slash ∷ joined t rest

append_segments-joined :
    (result s : Text) (rest : List Text)
    → drop_last (append_segments result (s ∷ rest)) ≡ result ++ joined s rest
unfolding append_segments joined
append_segments-joined result s [] =
    rw (← append_assoc result s (slash ∷ [])) (drop_last-append (result ++ s) slash)
append_segments-joined result s (t ∷ rest) =
    append_segments-joined (result ++ (s ++ slash ∷ [])) t rest
    ∙ rw (append_assoc result, append_assoc s)

abbrev pub root_prefix : Bool → Text
root_prefix true = slash ∷ []
root_prefix false = []

pub print-joined :
    (global : Bool) (s : Text) (rest : List Text)
    → print_path global (s ∷ rest) ≡ root_prefix global ++ joined s rest
unfolding print_path
print-joined true s rest = append_segments-joined (slash ∷ []) s rest
print-joined false s rest = append_segments-joined [] s rest

split-no_slash_self : (s : Text) → no_slash s ≡ true → split s ≡ s ∷ []
unfolding split
split-no_slash_self [] h = refl
split-no_slash_self (c ∷ s) h = ground (arith, split-no_slash_self s)

split-append : (s r : Text) → no_slash s ≡ true → split (s ++ slash ∷ r) ≡ s ∷ split r
unfolding split
split-append [] r h = refl
split-append (c ∷ s) r h = ground (arith, split-append s r)

split-joined :
    (s : Text) (rest : List Text)
    → no_slash s ≡ true
    → All (λ t. no_slash t ≡ true) rest
    → split (joined s rest) ≡ s ∷ rest
unfolding joined
split-joined s [] h k = split-no_slash_self s h
split-joined s (t ∷ rest) h k =
    rw (split-append s (joined t rest) h) (ap (λ l. s ∷ l) (split-joined t rest k.0 k.1))

-- What a kept segment is, whatever the segments around it.
IsKept : Text → Type 0
IsKept s = (no_slash s ≡ true) × (text_eq s [] ≡ false)

kept : (global : Bool) (stack : List Text) → IsNormal global stack → All IsKept stack
unfolding IsKept
kept global [] h = tt
kept global (s ∷ rest) h = ((h.0, h.1), kept global rest h.4)

IsKept-reverse : (xs : List Text) → All IsKept xs → All IsKept (reverse xs)
IsKept-reverse [] h = tt
IsKept-reverse (x ∷ xs) h =
    rw (reverse-cons x xs)
      (All-append IsKept (reverse xs) (x ∷ []) (IsKept-reverse xs h.1) (h.0, tt))

kept-no_slash : (xs : List Text) → All IsKept xs → All (λ t. no_slash t ≡ true) xs
unfolding IsKept
kept-no_slash [] h = tt
kept-no_slash (x ∷ xs) h = (h.0.0, kept-no_slash xs h.1)

is_absolute-joined : (s : Text) (rest : List Text) → IsKept s → is_absolute (joined s rest) ≡ false
unfolding IsKept joined text_eq
is_absolute-joined [] rest h = cc
is_absolute-joined (c ∷ s) [] h = ground arith
is_absolute-joined (c ∷ s) (t ∷ rest) h = ground arith

is_absolute-print :
    (global : Bool) (xs : List Text) → All IsKept xs → is_absolute (print_path global xs) ≡ global
unfolding print_path
is_absolute-print true [] h = refl
is_absolute-print false [] h = refl
is_absolute-print true (s ∷ rest) h = rw (append_segments-joined (slash ∷ []) s rest)
is_absolute-print false (s ∷ rest) h =
    rw (append_segments-joined [] s rest) (is_absolute-joined s rest h.0)

-- Reading back what was printed gives the segments that were printed.
fold-print :
    (global : Bool) (xs : List Text)
    → All IsKept xs
    → foldl (push_segment global) [] (split (print_path global xs))
      ≡ foldl (push_segment global) [] xs
fold-print true [] h = unfold print_path split push_segment text_eq in refl
fold-print false [] h = unfold print_path split push_segment text_eq in refl
fold-print true (s ∷ rest) h =
    rw (print-joined true s rest, split-append [] (joined s rest) refl)
      (ap (λ st. foldl (push_segment true) st (split (joined s rest))) (push_nil true [])
        ∙ rw (split-joined s rest (unfold IsKept in h.0.0) (kept-no_slash rest h.1)))
fold-print false (s ∷ rest) h =
    rw (print-joined false s rest)
      (rw (split-joined s rest (unfold IsKept in h.0.0) (kept-no_slash rest h.1)))

-- A printed normal form has the segments that it was printed from.
pub segments_of-print :
    (global : Bool) (stack : List Text)
    → IsNormal global stack
    → (is_absolute (print_path global (reverse stack)) ≡ global)
      × (segments_of (print_path global (reverse stack)) ≡ stack)
segments_of-print global stack h =
    let k = IsKept-reverse stack (kept global stack h) in
    let e = is_absolute-print global (reverse stack) k in
    (
      e,
      unfold segments_of in rw e (fold-print global (reverse stack) k ∙ fold_normal global stack h),
    )

-- The absolute or relative kind and the segments of a path are those of its normal form.
pub segments_of-normalize :
    (p : Text)
    → (is_absolute (normalize_path p) ≡ is_absolute p)
      × (segments_of (normalize_path p) ≡ segments_of p)
segments_of-normalize p =
    rw (normalize-segments_of p)
      (segments_of-print (is_absolute p) (segments_of p) (segments_of-IsNormal p))

-- Normalizing a path that is normalized changes nothing.
pub normalize-normalize : (p : Text) → normalize_path (normalize_path p) ≡ normalize_path p
normalize-normalize p =
    let e = segments_of-normalize p in
    normalize-segments_of (normalize_path p) ∙ rw (e.0, e.1) (sym (normalize-segments_of p))

-- A leading slash shows as an empty first segment.
abbrev pub rooted : Bool → List Text → List Text
rooted true xs = [] ∷ xs
rooted false xs = xs

split_print_kept :
    (global : Bool) (s : Text) (rest : List Text)
    → All IsKept (s ∷ rest)
    → split (print_path global (s ∷ rest)) ≡ rooted global (s ∷ rest)
unfolding IsKept
split_print_kept true s rest h =
    rw (print-joined true s rest, split-append [] (joined s rest) refl)
      (ap (λ l. [] ∷ l) (split-joined s rest h.0.0 (kept-no_slash rest h.1)))
split_print_kept false s rest h =
    rw (print-joined false s rest) (split-joined s rest h.0.0 (kept-no_slash rest h.1))

-- The text of a normal form with a segment splits into its segments.
pub split-print :
    (global : Bool) (stack : List Text)
    → IsNormal global stack
    → (reverse stack ≡ [])
      ⊎ (split (print_path global (reverse stack)) ≡ rooted global (reverse stack))
split-print global stack h = go (reverse stack) (IsKept-reverse stack (kept global stack h))
  where
    go :
        (xs : List Text)
        → All IsKept xs
        → (xs ≡ []) ⊎ (split (print_path global xs) ≡ rooted global xs)
    go [] k = inl refl
    go (s ∷ rest) k = inr (split_print_kept global s rest k)

-- The normal form of a path is absolute exactly if the path is. It is the text of its own segments,
-- none of which is empty, a dot or has a slash, and where a dot-dot stands only at the front of a
-- relative path.
pub normalize_path-IsNormal :
    (p : Text)
    → (is_absolute (normalize_path p) ≡ is_absolute p)
      × (normalize_path p ≡ print_path (is_absolute p) (reverse (segments_of (normalize_path p))))
      × IsNormal (is_absolute p) (segments_of (normalize_path p))
normalize_path-IsNormal p =
    let (kind, same) = segments_of-normalize p in
    (kind, rw same (normalize-segments_of p), rw same (segments_of-IsNormal p))
