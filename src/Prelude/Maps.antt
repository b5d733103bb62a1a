-- ===== src/Prelude/Maps.antt =====
-- Maps from texts as lists of pairs, in any order: the operations of `std::map` and
-- `std::unordered_map` that the code uses.
use buildbox_common.Prelude.{
  ◌≡◌, ◌⊎◌, inl, inr, Option-cases, List, [], ◌∷◌, Option, none, some, if◌then◌else◌, Text, text_eq,
}

-- `std::map::find`
unfoldable pub map_find : {A : Type 0} → List (Text × A) → Text → Option A
map_find [] name = none
map_find ((n, a) ∷ rest) name =
    let found = map_find rest name in if text_eq n name then some a else found

-- `std::map::emplace`, which leaves an entry that is there.
unfoldable pub map_emplace : {A : Type 0} → List (Text × A) → Text → A → List (Text × A)
unfolding map_find
map_emplace map name a = elim (map_find map name) [ none ↦ (name, a) ∷ map | some _ ↦ map ]

-- The change of an entry that is there, through the iterator.
unfoldable pub map_update : {A : Type 0} → List (Text × A) → Text → (A → A) → List (Text × A)
map_update [] name f = []
map_update ((n, a) ∷ rest) name f =
    let more = map_update rest name f in if text_eq n name then (n, f a) ∷ rest else (n, a) ∷ more

pub emplace-cases :
    {A : Type 0} (map : List (Text × A)) (name : Text) (a : A)
    → (map_emplace map name a ≡ (name, a) ∷ map) ⊎ (map_emplace map name a ≡ map)
unfolding map_emplace
emplace-cases map name a = elim (Option-cases (map_find map name)) [
  | inl missing ↦ inl (rw (missing, map_emplace))
  | inr (b, found) ↦ inr (rw (found, map_emplace))
]
