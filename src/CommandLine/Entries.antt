-- ===== src/CommandLine/Entries.antt =====
-- What the operations on the container of parsed arguments leave at each name.
use buildbox_common.Prelude.{
  ◌≡◌, inl, inr, List, [], ◌∷◌, Option, none, some, arith, if◌then◌else◌, Text, text_eq, text_eq→eq,
  text_eq_refl, Bool-cases, Option-cases,
}
use buildbox_common.Prelude.Maps.{map_find, map_emplace, map_update}

module _ {A : Type 0} where
  -- The first of two values for an entry.
  abbrev pub first_of : Option A → A → A
  first_of none a = a
  first_of (some b) a = b

  abbrev pub changed : (A → A) → Option A → Option A
  changed f none = none
  changed f (some a) = some (f a)

  pub find-emplace :
      (map : List (Text × A)) (name : Text) (a : A) (key : Text)
      → map_find (map_emplace map name a) key
        ≡ (if text_eq name key then some (first_of (map_find map key) a) else map_find map key)
  unfolding map_emplace map_find
  find-emplace map name a key = elim (Bool-cases (text_eq name key)) [
    | inl e ↦
        let same = text_eq→eq name key e in
        elim (Option-cases (map_find map name)) [
          | inl missing ↦ ground (arith, text_eq_refl name)
          | inr (b, found) ↦ ground (arith, text_eq_refl name)
        ]
    | inr e ↦ elim (Option-cases (map_find map name)) [
      | inl missing ↦ ground arith
      | inr (b, found) ↦ ground arith
    ]
  ]

  pub find-update :
      (map : List (Text × A)) (name : Text) (f : A → A) (key : Text)
      → map_find (map_update map name f) key
        ≡ (if text_eq name key then changed f (map_find map key) else map_find map key)
  unfolding map_update map_find
  find-update [] name f key = ground arith
  find-update ((n, a) ∷ rest) name f key = elim (Bool-cases (text_eq n name)) [
    | inl e ↦ let same = text_eq→eq n name e in rw (same, text_eq_refl name) (ground arith)
    | inr e ↦ elim (Bool-cases (text_eq name key)) [
      | inl d ↦ let same = text_eq→eq name key d in ground (arith, find-update rest name f key)
      | inr d ↦ ground (arith, find-update rest name f key)
    ]
  ]
