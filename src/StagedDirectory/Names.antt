-- ===== src/StagedDirectory/Names.antt =====
-- The components of an output's path are names.
use mathlib.Core.List.{reverse, reverse-cons}
use buildbox_common.Prelude.{
  ◌≡◌, refl, sym, ap, subst, ◌∙◌, inl, inr, Bool, true, false, List, [], ◌∷◌, ◌++◌, Option, none,
  some, if◌then◌else◌, arith, Text, text_eq, text_eq→eq, codes, starts_with, All, All-append,
  Bool-cases,
}
use buildbox_common.Path.{dot_dot, is_absolute, normalize_path, print_path, leads_out, can_pop}
use buildbox_common.Path.Normal.{
  no_slash, IsNormal, segments_of, segments_of-IsNormal, normalize-segments_of,
}
use buildbox_common.Path.Print.{joined, print-joined}
use buildbox_common.StagedDirectory.{
  working_directory_of, no_invalid_slashes, inside_input_root, path_in_input_root,
}
use buildbox_common.StagedDirectory.Open.{components}
use buildbox_common.StagedDirectory.Components.{Kept, print-components}

-- A name is not empty, has no slash, and does not lead to the parent.
abbrev pub IsName : Text → Type 0
IsName s = (no_slash s ≡ true) × (text_eq s [] ≡ false) × (text_eq s dot_dot ≡ false)

-- No segment of a relative normal form leads to the parent if the first does not.
abbrev first_dot_dot : List Text → Bool
first_dot_dot [] = false
first_dot_dot (s ∷ rest) = text_eq s dot_dot

-- The same, read off the segments last first.
abbrev bottom_dot_dot : List Text → Bool
bottom_dot_dot [] = false
bottom_dot_dot (s ∷ []) = text_eq s dot_dot
bottom_dot_dot (s ∷ t ∷ rest) = bottom_dot_dot (t ∷ rest)

first-snoc :
    (xs : List Text) (u s : Text)
    → first_dot_dot ((xs ++ u ∷ []) ++ s ∷ []) ≡ first_dot_dot (xs ++ u ∷ [])
first-snoc [] u s = refl
first-snoc (x ∷ xs) u s = refl

first-reverse : (stack : List Text) → first_dot_dot (reverse stack) ≡ bottom_dot_dot stack
first-reverse [] = refl
first-reverse (s ∷ []) = refl
first-reverse (s ∷ t ∷ rest) =
    ap first_dot_dot (reverse-cons s (t ∷ rest) ∙ ap (λ l. l ++ s ∷ []) (reverse-cons t rest))
    ∙ (first-snoc (reverse rest) t s
        ∙ (ap first_dot_dot (sym (reverse-cons t rest)) ∙ first-reverse (t ∷ rest)))

names : (stack : List Text) → IsNormal false stack → bottom_dot_dot stack ≡ false → All IsName stack
unfolding can_pop
names [] n h = tt
names (s ∷ []) n h = ((n.0, n.1, h), tt)
names (s ∷ t ∷ rest) n h =
    let below = names (t ∷ rest) n.4 h in ((n.0, n.1, ground (arith, below.0.2)), below)

up_leads_out : (rest : List Text) → leads_out (joined dot_dot rest) ≡ false → ⊥
unfolding joined text_eq starts_with
up_leads_out [] h = cc
up_leads_out (t ∷ rest) h = cc

first-leads_out :
    (s : Text) (rest : List Text) → leads_out (joined s rest) ≡ false → text_eq s dot_dot ≡ false
first-leads_out s rest h = elim (Bool-cases (text_eq s dot_dot)) [
  | inr other ↦ other
  | inl same ↦ absurd (
      up_leads_out rest
        (subst (λ x. leads_out (joined x rest) ≡ false) (text_eq→eq s dot_dot same) h))
]

All-reverse : (P : Text → Type 0) (xs : List Text) → All P xs → All P (reverse xs)
All-reverse P [] h = tt
All-reverse P (x ∷ xs) h =
    rw (reverse-cons x xs) (All-append P (reverse xs) (x ∷ []) (All-reverse P xs h.1) (h.0, tt))

segments-Kept : (stack : List Text) → IsNormal false stack → All Kept stack
segments-Kept [] n = tt
segments-Kept (s ∷ stack) n = ((n.0, n.1), segments-Kept stack n.4)

stays_in : (xs : List Text) → leads_out (print_path false xs) ≡ false → first_dot_dot xs ≡ false
stays_in [] h = refl
stays_in (s ∷ rest) h = first-leads_out s rest (ap leads_out (sym (print-joined false s rest)) ∙ h)

dot-IsName : All IsName (codes "." ∷ [])
unfolding text_eq
dot-IsName = ((refl, refl, refl), tt)

print-IsName :
    (stack : List Text)
    → IsNormal false stack
    → leads_out (print_path false (reverse stack)) ≡ false
    → All IsName (components (print_path false (reverse stack)))
print-IsName stack n h =
    elim (print-components (reverse stack) (All-reverse Kept stack (segments-Kept stack n))) [
      | inl dot ↦ subst (All IsName) (sym dot) dot-IsName
      | inr same ↦ subst (All IsName) (sym same) (
          All-reverse IsName stack
            (names stack n (sym (first-reverse stack) ∙ stays_in (reverse stack) h)))
    ]

normalize-IsName :
    (path : Text)
    → is_absolute path ≡ false
    → leads_out (normalize_path path) ≡ false
    → All IsName (components (normalize_path path))
normalize-IsName path relative h =
    let e : normalize_path path ≡ print_path false (reverse (segments_of path)) =
      normalize-segments_of path ∙ ap (λ g. print_path g (reverse (segments_of path))) relative in
    subst (λ x. All IsName (components x)) (sym e)
      (print-IsName (segments_of path)
        (subst (λ g. IsNormal g (segments_of path)) relative (segments_of-IsNormal path))
        (ap leads_out (sym e) ∙ h))

relative-append :
    (dir name : Text)
    → is_absolute dir ≡ false
    → is_absolute name ≡ false
    → is_absolute (dir ++ name) ≡ false
relative-append [] name h k = k
relative-append (c ∷ dir) name h k = h

working_directory_relative :
    (working dir : Text) → working_directory_of working ≡ some dir → is_absolute dir ≡ false
unfolding working_directory_of
working_directory_relative [] dir e = ground arith
working_directory_relative (c ∷ cs) dir e = ground arith

inside-path :
    (path p : Text) → inside_input_root path ≡ some p → (p ≡ path) × (leads_out path ≡ false)
inside-path path p e = ground arith

checked-path :
    (name path : Text) (x : Option Text)
    → (if no_invalid_slashes name then x else none) ≡ some path
    → (is_absolute name ≡ false) × (x ≡ some path)
checked-path name path x e = ground arith

-- A path that `pathInInputRoot` returns for the name of an output, under the working directory that
-- `getWorkingDirectory` returns, is opened by components that are names: none is empty, has a slash or
-- leads to the parent.
pub path_in_input_root-IsName :
    (working dir name path : Text)
    → working_directory_of working ≡ some dir
    → path_in_input_root name dir ≡ some path
    → All IsName (components path)
unfolding path_in_input_root
path_in_input_root-IsName working dir name path e f =
    let (relative, inside) =
      checked-path name path (inside_input_root (normalize_path (dir ++ name))) f in
    let (same, stays) = inside-path (normalize_path (dir ++ name)) path inside in
    subst (λ x. All IsName (components x)) (sym same)
      (normalize-IsName (dir ++ name)
        (relative-append dir name (working_directory_relative working dir e) relative) stays)
