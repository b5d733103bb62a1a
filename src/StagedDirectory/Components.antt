-- ===== src/StagedDirectory/Components.antt =====
-- The components of a relative normal form are its segments.
use buildbox_common.Prelude.{
  ℕ, ◌≡◌, refl, sym, ap, ◌∙◌, ◌⊎◌, inl, inr, true, false, append-nil, List, [], ◌∷◌, ◌++◌, arith,
  Text, text_eq, codes, All,
}
use buildbox_common.Path.{slash, print_path, ends_with_slash}
use buildbox_common.Path.Normal.{no_slash}
use buildbox_common.Path.Print.{joined, print-joined}
use buildbox_common.StagedDirectory.Open.{components_from, components}

abbrev pub Kept : Text → Type 0
Kept s = (no_slash s ≡ true) × (text_eq s [] ≡ false)

one-component : (s : Text) → no_slash s ≡ true → components_from false s ≡ s ∷ []
unfolding components_from
one-component [] h = refl
one-component (c ∷ s) h = ground (arith, one-component s)

slash-components :
    (s r : Text)
    → no_slash s ≡ true
    → components_from false (s ++ slash ∷ r) ≡ s ∷ components_from true r
unfolding components_from
slash-components [] r h = refl
slash-components (c ∷ s) r h = ground (arith, slash-components s r)

begin-components :
    (s r : Text) → Kept s → components_from true (s ++ r) ≡ components_from false (s ++ r)
unfolding components_from text_eq
begin-components [] r h = cc
begin-components (c ∷ s) r h = ground arith

joined-components :
    (s : Text) (rest : List Text)
    → Kept s
    → All Kept rest
    → components_from true (joined s rest) ≡ s ∷ rest
unfolding joined
joined-components s [] h k =
    ap (components_from true) (sym (append-nil s))
    ∙ (begin-components s [] h ∙ (ap (components_from false) (append-nil s) ∙ one-component s h.0))
joined-components s (t ∷ rest) h k =
    begin-components s (slash ∷ joined t rest) h
    ∙ (slash-components s (joined t rest) h.0 ∙ ap (λ l. s ∷ l) (joined-components t rest k.0 k.1))

ends-append : (s : Text) (c : ℕ) (y : Text) → ends_with_slash (s ++ c ∷ y) ≡ ends_with_slash (c ∷ y)
unfolding ends_with_slash
ends-append [] c y = refl
ends-append (x ∷ []) c y = refl
ends-append (x ∷ z ∷ s) c y = ends-append (z ∷ s) c y

ends-no_slash : (s : Text) → no_slash s ≡ true → ends_with_slash s ≡ false
unfolding ends_with_slash
ends-no_slash [] h = refl
ends-no_slash (c ∷ []) h = ground arith
ends-no_slash (c ∷ d ∷ s) h = ends-no_slash (d ∷ s) (ground arith)

ends-segment : (t r : Text) → Kept t → ends_with_slash (slash ∷ (t ++ r)) ≡ ends_with_slash (t ++ r)
unfolding ends_with_slash text_eq
ends-segment [] r h = cc
ends-segment (c ∷ t) r h = refl

ends-joined :
    (s : Text) (rest : List Text) → Kept s → All Kept rest → ends_with_slash (joined s rest) ≡ false
unfolding joined
ends-joined s [] h k = ends-no_slash s h.0
ends-joined s (t ∷ []) h k =
    ends-append s slash t
    ∙ (ap (λ x. ends_with_slash (slash ∷ x)) (sym (append-nil t))
        ∙ (ends-segment t [] k.0 ∙ (ap ends_with_slash (append-nil t) ∙ ends-no_slash t k.0.0)))
ends-joined s (t ∷ u ∷ rest) h k =
    ends-append s slash (t ++ slash ∷ joined u rest)
    ∙ (ends-segment t (slash ∷ joined u rest) k.0 ∙ ends-joined t (u ∷ rest) k.0 k.1)

-- The components of a relative normal form are its segments, and a dot alone where it has none.
pub print-components :
    (xs : List Text)
    → All Kept xs
    → (components (print_path false xs) ≡ codes "." ∷ []) ⊎ (components (print_path false xs) ≡ xs)
unfolding components
print-components [] k = inl (unfold print_path components_from ends_with_slash in refl)
print-components (s ∷ rest) k =
    inr (
      rw (print-joined false s rest, ends-joined s rest k.0 k.1) (joined-components s rest k.0 k.1))
