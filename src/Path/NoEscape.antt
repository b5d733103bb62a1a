-- ===== src/Path/NoEscape.antt =====
-- What `joinPathSegmentsNoEscape` lets through lies below the base directory.
use mathlib.Core.List.{reverse, reverse-append, reverse-reverse}
use buildbox_common.Prelude.{
  ℕ, ◌≡◌, ◌≢◌, refl, sym, ap, subst, ◌∙◌, ◌⊎◌, inl, inr, Bool, true, false, List, [], ◌∷◌, ◌++◌,
  append_assoc, append-nil, some, arith, ◌==◌, if◌then◌else◌, Bool-cases, Text, text_eq, text_eq→eq,
  ne_of_text_eq, starts_with→append, codes, All,
}
use buildbox_common.Path.{
  slash, dot_dot, can_pop, push_segment, print_path, is_absolute, normalize_path,
  join_path_segments, is_below, escapes, join_path_segments_no_escape,
}
use buildbox_common.Path.Split.{split, cons_head}
use buildbox_common.Path.Normal.{IsNormal, segments_of, segments_of-IsNormal, normalize-segments_of}
use buildbox_common.Path.Print.{segments_of-normalize, rooted, split-print, normalize-normalize}

-- No segment is a dot-dot.
abbrev pub StaysIn : List Text → Type 0
StaysIn = All (λ s. text_eq s dot_dot ≡ false)

-- Below the root, or below a directory whose last segment is a name.
abbrev pub HasFloor : Text → Type 0
HasFloor base = (is_absolute base ≡ true) ⊎ (can_pop (segments_of base) ≡ true)

split-ne-nil : (a : Text) → split a ≢ []
unfolding split
split-ne-nil [] = λ e. cc
split-ne-nil (c ∷ a) = go (split a)
  where
    go : (xs : List Text) → (if c == slash then [] ∷ xs else cons_head c xs) ≢ []
    go [] = ground arith
    go (x ∷ xs) = ground arith

split-slash : (a r : Text) → split (a ++ slash ∷ r) ≡ split a ++ split r
unfolding split
split-slash [] r = refl
split-slash (c ∷ a) r = rw (split-slash a r) (go (split a) (split-ne-nil a))
  where
    go :
        (xs : List Text)
        → xs ≢ []
        → (if c == slash then [] ∷ (xs ++ split r) else cons_head c (xs ++ split r))
          ≡ (if c == slash then [] ∷ xs else cons_head c xs) ++ split r
    go [] ne = absurd (ne refl)
    go (x ∷ xs) ne = ground arith

normal_root-StaysIn : (stack : List Text) → IsNormal true stack → StaysIn stack
normal_root-StaysIn [] h = tt
normal_root-StaysIn (s ∷ rest) h = (ground arith, normal_root-StaysIn rest h.4)

-- On top of a name only names are kept.
extra-StaysIn :
    (global : Bool) (extra base : List Text)
    → can_pop base ≡ true
    → IsNormal global (extra ++ base)
    → StaysIn extra × (can_pop (extra ++ base) ≡ true)
unfolding can_pop
extra-StaysIn global [] base f h = (tt, f)
extra-StaysIn global (s ∷ extra) base f h = ground (arith, extra-StaysIn global extra base f h.4)

-- The joined path is a normal form.
join-normalized :
    (first second joined : Text) (force : Bool)
    → join_path_segments first second force ≡ some joined
    → normalize_path joined ≡ joined
unfolding join_path_segments
join-normalized [] second joined force h = cc
join-normalized (c ∷ cs) [] joined force h = cc
join-normalized (c ∷ cs) (d ∷ ds) joined force h = ground (
  arith,
  normalize-normalize (d ∷ ds),
  normalize-normalize (normalize_path (c ∷ cs) ++ slash ∷ normalize_path (d ∷ ds)),
)

is_absolute-append : (base r : Text) → base ≢ [] → is_absolute (base ++ r) ≡ is_absolute base
is_absolute-append [] r h = absurd (h refl)
is_absolute-append (c ∷ base) r h = refl

-- The segments, in order, of a normal form that is more than a root or a dot.
split-normal :
    (p : Text)
    → normalize_path p ≡ p
    → (segments_of p ≡ []) ⊎ (split p ≡ rooted (is_absolute p) (reverse (segments_of p)))
split-normal p e = elim (split-print (is_absolute p) (segments_of p) (segments_of-IsNormal p)) [
  | inl nil ↦ inl (sym (reverse-reverse (segments_of p)) ∙ ap reverse nil)
  | inr parts ↦ inr (rw (← normalize-segments_of p, e) at parts)
]

reverse-parts :
    (global : Bool) (xs ys zs : List Text)
    → rooted global (reverse xs) ≡ rooted global (reverse ys) ++ zs
    → xs ≡ reverse zs ++ ys
reverse-parts global xs ys zs e =
    let inner : reverse xs ≡ reverse ys ++ zs = unroot global e in
    sym (reverse-reverse xs)
    ∙ ap reverse inner
    ∙ reverse-append (reverse ys) zs
    ∙ ap (λ l. reverse zs ++ l) (reverse-reverse ys)
  where
    unroot :
        (g : Bool)
        → rooted g (reverse xs) ≡ rooted g (reverse ys) ++ zs
        → reverse xs ≡ reverse ys ++ zs
    unroot true h = cc
    unroot false h = h

-- A normal form with no segment is the root or the dot.
no_segments :
    (p : Text) → normalize_path p ≡ p → segments_of p ≡ [] → p ≡ print_path (is_absolute p) []
no_segments p e nil = sym e ∙ normalize-segments_of p ∙ rw nil

longer_than_one : (c d : ℕ) (cs r : Text) → c ∷ (cs ++ slash ∷ r) ≢ d ∷ []
longer_than_one c d [] r h = cc
longer_than_one c d (x ∷ cs) r h = cc

joined_segments :
    (base r : Text)
    → base ≢ []
    → normalize_path (base ++ slash ∷ r) ≡ base ++ slash ∷ r
    → segments_of (base ++ slash ∷ r) ≢ []
joined_segments [] r ne e h = absurd (ne refl)
joined_segments (c ∷ base) r ne e h = go (is_absolute (c ∷ base)) (no_segments _ e h)
  where
    go : (g : Bool) → c ∷ (base ++ slash ∷ r) ≢ print_path g []
    go true e' = longer_than_one c slash base r (unfold print_path in e')
    go false e' = longer_than_one c b'.' base r (unfold print_path in e')

-- A normal form that begins with another and a slash has its segments, and more.
below :
    (base r : Text)
    → base ≢ []
    → normalize_path base ≡ base
    → segments_of base ≢ []
    → normalize_path (base ++ slash ∷ r) ≡ base ++ slash ∷ r
    → segments_of (base ++ slash ∷ r) ≡ reverse (split r) ++ segments_of base
below base r ne nb some_base nj = elim (split-normal base nb) [
  | inl nil ↦ absurd (some_base nil)
  | inr parts ↦ elim (split-normal (base ++ slash ∷ r) nj) [
    | inl nil ↦ absurd (joined_segments base r ne nj nil)
    | inr whole ↦
        reverse-parts (is_absolute base) (segments_of (base ++ slash ∷ r)) (segments_of base)
          (split r)
          (sym (rw (is_absolute-append base (slash ∷ r) ne) at whole)
            ∙ (split-slash base r ∙ ap (λ l. l ++ split r) parts))
  ]
]

-- The segments of `joined` are those of `base` and names on top of them.
abbrev pub IsInside : Text → Text → Type 0
IsInside base joined =
    (extra : List Text) × (segments_of joined ≡ extra ++ segments_of base)
    × StaysIn extra
    × (is_absolute joined ≡ is_absolute base)

segments_of_root : segments_of (codes "/") ≡ []
unfolding segments_of split push_segment text_eq
segments_of_root = refl

segments_of_dot : segments_of (codes ".") ≡ []
unfolding segments_of split push_segment text_eq
segments_of_dot = refl

root-IsInside : (joined : Text) → is_absolute joined ≡ true → IsInside (codes "/") joined
root-IsInside joined e =
    let normal = subst (λ g. IsNormal g (segments_of joined)) e (segments_of-IsNormal joined) in
    (
      segments_of joined,
      rw segments_of_root (sym (append-nil (segments_of joined))),
      normal_root-StaysIn _ normal,
      e,
    )

dot_has_no_floor : ¬ HasFloor (codes ".")
unfolding can_pop
dot_has_no_floor (inl h) = cc
dot_has_no_floor (inr h) = cc (ap can_pop segments_of_dot)

non_empty : (base : Text) → normalize_path base ≡ base → base ≢ []
unfolding normalize_path
non_empty [] h = λ e. cc
non_empty (c ∷ base) h = λ e. cc

name_on_top :
    (global : Bool) (stack : List Text)
    → IsNormal global stack
    → stack ≢ []
    → (global ≡ true) ⊎ (can_pop stack ≡ true)
    → can_pop stack ≡ true
unfolding can_pop
name_on_top global [] h ne f = absurd (ne refl)
name_on_top global (s ∷ stack) h ne f = ground arith

some_segments :
    (base : Text)
    → normalize_path base ≡ base
    → text_eq base (codes "/") ≡ false
    → text_eq base (codes ".") ≡ false
    → segments_of base ≢ []
some_segments base nb e f nil = go (is_absolute base) (no_segments base nb nil)
  where
    go : (g : Bool) → base ≢ print_path g []
    go true h = ne_of_text_eq base (codes "/") e (unfold print_path in h)
    go false h = ne_of_text_eq base (codes ".") f (unfold print_path in h)

below-IsInside :
    (base joined : Text)
    → normalize_path base ≡ base
    → normalize_path joined ≡ joined
    → segments_of base ≢ []
    → base ≢ []
    → HasFloor base
    → is_below base joined ≡ true
    → IsInside base joined
unfolding is_below
below-IsInside base joined nb nj some_base ne floor h =
    let (r, e) = starts_with→append (base ++ slash ∷ []) joined h in
    let e' : joined ≡ base ++ slash ∷ r = e ∙ append_assoc base (slash ∷ []) r in
    let same = below base r ne nb some_base (rw e' at nj) in
    let normal = rw (e', same) at (segments_of-IsNormal joined) in
    let top = name_on_top _ _ (segments_of-IsNormal base) some_base floor in
    (
      reverse (split r),
      ap segments_of e' ∙ same,
      (extra-StaysIn _ (reverse (split r)) (segments_of base) top normal).0,
      ap is_absolute e' ∙ is_absolute-append base (slash ∷ r) ne,
    )

-- The three ways to pass the tests.
escapes-IsInside :
    (base within joined : Text)
    → normalize_path base ≡ base
    → normalize_path joined ≡ joined
    → HasFloor base
    → (is_absolute base ≡ true → is_absolute joined ≡ true)
    → escapes base within joined ≡ false
    → IsInside base joined
escapes-IsInside base within joined nb nj floor root h = elim (Bool-cases (text_eq joined base)) [
  | inl same ↦ rw (text_eq→eq joined base same) ([], refl, tt, refl)
  | inr differ ↦ elim (Bool-cases (text_eq base (codes "/"))) [
    | inl at_root ↦
        let e = text_eq→eq base (codes "/") at_root in rw e (root-IsInside joined (root (rw e)))
    | inr no_root ↦ elim (Bool-cases (text_eq base (codes "."))) [
      | inl at_dot ↦ absurd (dot_has_no_floor (rw (text_eq→eq base (codes ".") at_dot) at floor))
      | inr no_dot ↦
          below-IsInside base joined nb nj (some_segments base nb no_root no_dot)
            (non_empty base nb) floor
            (unfold escapes in ground (arith, text_eq→eq base [], non_empty base nb))
    ]
  ]
]

join-is_absolute :
    (first second joined : Text) (force : Bool)
    → join_path_segments first second force ≡ some joined
    → is_absolute first ≡ true
    → is_absolute joined ≡ true
unfolding join_path_segments
join-is_absolute [] second joined force h a = cc
join-is_absolute (c ∷ cs) [] joined force h a = cc
join-is_absolute (c ∷ cs) (d ∷ ds) joined force h a = ground (
  arith,
  segments_of-normalize (normalize_path (c ∷ cs) ++ slash ∷ normalize_path (d ∷ ds)),
  rooted_stays (normalize_path (c ∷ cs)) (slash ∷ normalize_path (d ∷ ds)),
  segments_of-normalize (c ∷ cs),
)
  where
    rooted_stays : (b r : Text) → is_absolute b ≡ true → is_absolute (b ++ r) ≡ true
    rooted_stays [] r h = cc
    rooted_stays (x ∷ b) r h = h

accepted :
    (basedir path_within joined : Text) (force : Bool)
    → join_path_segments_no_escape basedir path_within force ≡ some joined
    → (join_path_segments basedir (normalize_path path_within) force ≡ some joined)
      × (escapes (normalize_path basedir) (normalize_path path_within) joined ≡ false)
unfolding join_path_segments_no_escape
accepted basedir path_within joined force h = ground arith

-- Where the base is absolute, or its normal form ends in a name, a joined path that
-- `joinPathSegmentsNoEscape` returns has the segments of the base and, on top of them, only
-- segments other than dot-dot; it is absolute exactly if the base is.
pub no_escape-IsInside :
    (basedir path_within joined : Text) (force : Bool)
    → HasFloor basedir
    → join_path_segments_no_escape basedir path_within force ≡ some joined
    → IsInside basedir joined
no_escape-IsInside basedir path_within joined force floor h =
    let (e, passed) = accepted basedir path_within joined force h in
    let same = segments_of-normalize basedir in
    let inside =
      escapes-IsInside (normalize_path basedir) (normalize_path path_within) joined
        (normalize-normalize basedir) (join-normalized basedir _ joined force e)
        (rw (same.0, same.1) floor)
        (λ a. join-is_absolute basedir _ joined force e (sym same.0 ∙ a)) passed in
    rw (same.0, same.1) at inside
