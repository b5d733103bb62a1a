-- ===== src/StringUtils/Laws.antt =====
-- What is cut off and what is kept by `ltrim`, `rtrim` and `trim`.
use mathlib.Core.List.{reverse, reverse-append, reverse-reverse, reverse-cons}
use buildbox_common.Prelude.{
  ℕ, ◌≡◌, refl, sym, ap, subst, ◌∙◌, Bool, true, false, inl, inr, [], ◌∷◌, ◌++◌, Bool-cases, Text,
  All, All-append,
}
use buildbox_common.StringUtils.{ltrim_by, rtrim_by, trim_by}

module _ (filter : ℕ → Bool) where
  -- Every byte is one that the filter takes.
  abbrev pub AllTaken : Text → Type 0
  AllTaken = All (λ c. filter c ≡ true)

  -- The text does not begin with a byte that the filter takes.
  abbrev pub StartsClean : Text → Type 0
  StartsClean [] = Unit
  StartsClean (c ∷ _) = filter c ≡ false

  abbrev pub EndsClean : Text → Type 0
  EndsClean s = StartsClean (reverse s)

  pub ltrim_split :
      (s : Text)
      → (front : Text) × (s ≡ front ++ ltrim_by filter s)
        × AllTaken front
        × StartsClean (ltrim_by filter s)
  unfolding ltrim_by
  ltrim_split [] = ([], refl, tt, tt)
  ltrim_split (c ∷ s) = elim (Bool-cases (filter c)) [
    | inl e ↦
        let (front, same, taken, clean) = ltrim_split s in
        rw (e, ltrim_by) (c ∷ front, ap (λ t. c ∷ t) same, (e, taken), clean)
    | inr e ↦ rw (e, ltrim_by) ([], refl, tt, e)
  ]

  taken-reverse : (s : Text) → AllTaken s → AllTaken (reverse s)
  taken-reverse [] h = tt
  taken-reverse (c ∷ s) h =
      rw (reverse-cons c s)
        (All-append (λ d. filter d ≡ true) (reverse s) (c ∷ []) (taken-reverse s h.1) (h.0, tt))

  pub rtrim_split :
      (s : Text)
      → (back : Text) × (s ≡ rtrim_by filter s ++ back)
        × AllTaken back
        × EndsClean (rtrim_by filter s)
  unfolding rtrim_by
  rtrim_split s =
      let (front, same, taken, clean) = ltrim_split (reverse s) in
      (
        reverse front,
        sym (reverse-reverse s)
            ∙ ap reverse same
            ∙ reverse-append front (ltrim_by filter (reverse s)),
        taken-reverse front taken,
        rw (reverse-reverse (ltrim_by filter (reverse s))) clean,
      )

  starts_of_append : (s t : Text) → StartsClean (s ++ t) → StartsClean s
  starts_of_append [] t h = tt
  starts_of_append (c ∷ s) t h = h

  -- Trimming cuts off a front and a back of bytes that the filter takes, and what is left neither
  -- begins nor ends with such a byte.
  pub trim_split :
      (s : Text)
      → (front back : Text) × (s ≡ front ++ (trim_by filter s ++ back))
        × AllTaken front
        × AllTaken back
        × StartsClean (trim_by filter s)
        × EndsClean (trim_by filter s)
  unfolding trim_by
  trim_split s =
      let (front, same, taken, clean) = ltrim_split s in
      let (back, same', taken', clean') = rtrim_split (ltrim_by filter s) in
      (
        front,
        back,
        same ∙ ap (λ t. front ++ t) same',
        taken,
        taken',
        starts_of_append (rtrim_by filter (ltrim_by filter s)) back (subst StartsClean same' clean),
        clean',
      )

  ltrim-taken : (front t : Text) → AllTaken front → ltrim_by filter (front ++ t) ≡ ltrim_by filter t
  unfolding ltrim_by
  ltrim-taken [] t h = refl
  ltrim-taken (c ∷ front) t h = rw h.0 (ltrim-taken front t h.1)

  ltrim-clean : (s : Text) → StartsClean s → ltrim_by filter s ≡ s
  unfolding ltrim_by
  ltrim-clean [] h = refl
  ltrim-clean (c ∷ s) h = rw h

  rtrim-append : (s back : Text) → AllTaken back → EndsClean s → rtrim_by filter (s ++ back) ≡ s
  unfolding rtrim_by
  rtrim-append s back taken clean =
      rw (reverse-append s back, ltrim-taken (reverse back) (reverse s) (taken-reverse back taken))
        (ap reverse (ltrim-clean (reverse s) clean) ∙ reverse-reverse s)

  ltrim_middle :
      (s back : Text)
      → AllTaken back
      → StartsClean s
      → (back' : Text) × (ltrim_by filter (s ++ back) ≡ s ++ back') × AllTaken back'
  unfolding ltrim_by
  ltrim_middle [] [] taken clean = ([], refl, tt)
  ltrim_middle [] (c ∷ back) taken clean = rw taken.0 (ltrim_middle [] back taken.1 tt)
  ltrim_middle (c ∷ s) back taken clean = (back, ltrim-clean (c ∷ (s ++ back)) clean, taken)

  -- There is one such way to cut a text: whatever stands clean between bytes that the filter takes
  -- is what `trim` returns.
  pub trim_unique :
      (front s back : Text)
      → AllTaken front
      → AllTaken back
      → StartsClean s
      → EndsClean s
      → trim_by filter (front ++ (s ++ back)) ≡ s
  unfolding trim_by
  trim_unique front s back taken taken' starts ends =
      let (back', same, taken'') = ltrim_middle s back taken' starts in
      rw (ltrim-taken front (s ++ back) taken, same) (rtrim-append s back' taken'' ends)
