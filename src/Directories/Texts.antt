-- ===== src/Directories/Texts.antt =====
-- The texts of normal forms, which `createDirectory` cuts at their last slash.
use mathlib.Core.List.{reverse, reverse-cons}
use buildbox_common.Prelude.{
  ◌≤◌, ◌≡◌, refl, sym, ap, ◌∙◌, Bool, true, false, List, [], ◌∷◌, ◌++◌, append_assoc, none, some,
  arith, Text, text_eq, text_eq_refl, length, length-append, All, All-append,
}
use buildbox_common.Path.{slash, cut_last, before_last, print_path}
use buildbox_common.Path.Normal.{no_slash, IsNormal}
use buildbox_common.Path.Print.{joined, root_prefix, print-joined}

-- The text of a normal form, whose segments are given last first.
abbrev pub text_of : Bool → List Text → Text
text_of global stack = print_path global (reverse stack)

cut_last-no_slash : (t : Text) → no_slash t ≡ true → cut_last t ≡ none
unfolding cut_last
cut_last-no_slash [] h = refl
cut_last-no_slash (c ∷ t) h = ground (arith, cut_last-no_slash t)

cut_last-append :
    (before t : Text) → no_slash t ≡ true → cut_last (before ++ slash ∷ t) ≡ some (before, t)
unfolding cut_last
cut_last-append [] t h = rw (cut_last-no_slash t h) refl
cut_last-append (c ∷ before) t h = rw (cut_last-append before t h) refl

before_last-append :
    (before t : Text) → no_slash t ≡ true → before_last (before ++ slash ∷ t) ≡ before
before_last-append before t h = rw (cut_last-append before t h, before_last) refl

joined-snoc :
    (s : Text) (rest : List Text) (t : Text)
    → joined s (rest ++ t ∷ []) ≡ joined s rest ++ slash ∷ t
unfolding joined
joined-snoc s [] t = refl
joined-snoc s (u ∷ rest) t =
    ap (λ x. s ++ slash ∷ x) (joined-snoc u rest t)
    ∙ sym (append_assoc s (slash ∷ joined u rest) (slash ∷ t))

print-snoc :
    (global : Bool) (s : Text) (rest : List Text) (t : Text)
    → print_path global ((s ∷ rest) ++ t ∷ []) ≡ print_path global (s ∷ rest) ++ slash ∷ t
print-snoc global s rest t =
    print-joined global s (rest ++ t ∷ [])
    ∙ (ap (λ x. root_prefix global ++ x) (joined-snoc s rest t)
        ∙ (sym (append_assoc (root_prefix global) (joined s rest) (slash ∷ t))
            ∙ ap (λ x. x ++ slash ∷ t) (sym (print-joined global s rest))))

-- A path with its last segment cut off.
before_last-print :
    (global : Bool) (xs : List Text) (u t : Text)
    → no_slash t ≡ true
    → before_last (print_path global ((xs ++ u ∷ []) ++ t ∷ [])) ≡ print_path global (xs ++ u ∷ [])
before_last-print global [] u t h =
    ap before_last (print-snoc global u [] t) ∙ before_last-append (print_path global (u ∷ [])) t h
before_last-print global (s ∷ xs) u t h =
    ap before_last (print-snoc global s (xs ++ u ∷ []) t)
    ∙ before_last-append (print_path global (s ∷ (xs ++ u ∷ []))) t h

pub before_last-text :
    (global : Bool) (t u : Text) (stack : List Text)
    → no_slash t ≡ true
    → before_last (text_of global (t ∷ u ∷ stack)) ≡ text_of global (u ∷ stack)
before_last-text global t u stack h =
    rw (reverse-cons t (u ∷ stack), reverse-cons u stack)
      (before_last-print global (reverse stack) u t h)

-- Each segment of a normal form has a byte.
abbrev HaveBytes : List Text → Type 0
HaveBytes = All (λ (s : Text). 1 ≤ length s)

HaveBytes-reverse :
    (global : Bool) (stack : List Text) → IsNormal global stack → HaveBytes (reverse stack)
HaveBytes-reverse global [] n = tt
HaveBytes-reverse global (s ∷ stack) n = rw (reverse-cons s stack) (
    All-append (λ (s : Text). 1 ≤ length s) (reverse stack) (s ∷ [])
      (HaveBytes-reverse global stack n.4) (some_byte s n.1, tt))
  where
    some_byte : (s : Text) → text_eq s [] ≡ false → 1 ≤ length s
    some_byte [] h = absurd (ground (arith, text_eq_refl []))
    some_byte (c ∷ s) h = omega arith

length-joined :
    (s : Text) (rest : List Text)
    → HaveBytes (s ∷ rest)
    → length (s ∷ rest) ≤ length (joined s rest)
unfolding joined
length-joined s [] h = omega (arith, h.0)
length-joined s (t ∷ rest) h =
    omega (arith, h.0, length-append s (slash ∷ joined t rest), length-joined t rest h.1)

length-print :
    (global : Bool) (xs : List Text)
    → HaveBytes xs
    → (1 ≤ length (print_path global xs)) × (length xs ≤ length (print_path global xs))
length-print true [] h = unfold print_path in (omega arith, omega arith)
length-print false [] h = unfold print_path in (omega arith, omega arith)
length-print global (s ∷ rest) h =
    let more = length-append (root_prefix global) (joined s rest) in
    let least = length-joined s rest h in rw (print-joined global s rest) (omega arith, omega arith)

length-reverse : (xs : List Text) → length (reverse xs) ≡ length xs
length-reverse [] = refl
length-reverse (x ∷ xs) =
    rw (reverse-cons x xs) (length-append (reverse xs) (x ∷ []) ∙ omega (arith, length-reverse xs))

pub text_of-length :
    (global : Bool) (stack : List Text)
    → IsNormal global stack
    → (1 ≤ length (text_of global stack)) × (length stack ≤ length (text_of global stack))
text_of-length global stack n =
    let (one, enough) = length-print global (reverse stack) (HaveBytes-reverse global stack n) in
    (one, rw (length-reverse stack) at enough)
