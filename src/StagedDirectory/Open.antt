-- ===== src/StagedDirectory/Open.antt =====
-- `StagedDirectoryUtils`: the opening of a path one component at a time. A file descriptor is a number.
use buildbox_common.Prelude.{
  ℕ, Bool, true, false, List, [], ◌∷◌, Option, none, some, ◌⊎◌, inl, inr, ◌==◌, if◌then◌else◌, Text,
  drop_last,
}
use buildbox_common.Path.{slash, cut_last, ends_with_slash}
use buildbox_common.Path.Split.{cons_head}

-- The components that `findNextSeparator` cuts, which looks for a slash from the second byte of a
-- component on; the Boolean says whether a component begins.
unfoldable pub components_from : Bool → Text → List Text
components_from begins [] = [] ∷ []
components_from true (c ∷ rest) = cons_head c (components_from false rest)
components_from false (c ∷ rest) = elim (c == slash) [
  | true ↦ [] ∷ components_from true rest
  | false ↦ cons_head c (components_from false rest)
]

-- The components of a path, without the slash at its end.
unfoldable pub components : Text → List Text
components path = components_from true (if ends_with_slash path then drop_last path else path)

-- `openat(…, O_NOFOLLOW)`, for a directory or a file, with `errno`; and `close`.
pub record Opener : Type 1 where
  pub World : Type 0
  pub open_directory_at : ℕ → Text → World → (ℕ ⊎ ℕ) × World
  pub open_file_at : ℕ → Text → World → (ℕ ⊎ ℕ) × World
  pub close : ℕ → World → World

module _ (O : Opener) where
  -- Not the descriptor that was given as an argument.
  abbrev pub close_unless_root : ℕ → ℕ → O.World → O.World
  close_unless_root root fd w = if fd == root then w else O.close fd w

  abbrev pub after_open : (ℕ → O.World → (ℕ ⊎ ℕ) × O.World) → (ℕ ⊎ ℕ) × O.World → (ℕ ⊎ ℕ) × O.World
  after_open go_on (inl errno, w) = (inl errno, w)
  after_open go_on (inr fd, w) = go_on fd w

  -- The loop, from the directory `current` on. The last directory is returned.
  unfoldable pub open_components : ℕ → ℕ → List Text → O.World → (ℕ ⊎ ℕ) × O.World
  open_components root current [] w = (inr current, w)
  open_components root current (name ∷ []) w = O.open_directory_at current name w
  open_components root current (name ∷ next ∷ rest) w =
      after_open
        (λ fd w'. open_components root fd (next ∷ rest) (close_unless_root root current w'))
        (O.open_directory_at current name w)

  -- `openDirectoryInInputRoot`
  unfoldable pub open_directory_in_input_root : ℕ → Text → O.World → (ℕ ⊎ ℕ) × O.World
  unfolding components ends_with_slash
  open_directory_in_input_root root path w = open_components root root (components path) w

  abbrev pub close_after : ℕ → ℕ → (ℕ ⊎ ℕ) × O.World → (ℕ ⊎ ℕ) × O.World
  close_after root directory (r, w) = (r, close_unless_root root directory w)

  abbrev pub open_in : ℕ → Text → Option (Text × Text) → O.World → (ℕ ⊎ ℕ) × O.World
  open_in root path none w = O.open_file_at root path w
  open_in root path (some (base_path, filename)) w =
      after_open (λ directory w'. close_after root directory (O.open_file_at directory filename w'))
        (open_directory_in_input_root root base_path w)

  -- `openFileInInputRoot`
  unfoldable pub open_file_in_input_root : ℕ → Text → O.World → (ℕ ⊎ ℕ) × O.World
  open_file_in_input_root root path w = open_in root path (cut_last path) w

  abbrev pub closing : (ℕ ⊎ ℕ) × O.World → Bool × O.World
  closing (inl errno, w) = (false, w)
  closing (inr fd, w) = (true, O.close fd w)

  -- `fileInInputRoot`
  unfoldable pub file_in_input_root : ℕ → Text → O.World → Bool × O.World
  file_in_input_root root path w = closing (open_file_in_input_root root path w)

  -- `directoryInInputRoot`
  unfoldable pub directory_in_input_root : ℕ → Text → O.World → Bool × O.World
  directory_in_input_root root [] w = (true, w)
  directory_in_input_root root (c ∷ path) w =
      closing (open_directory_in_input_root root (c ∷ path) w)
