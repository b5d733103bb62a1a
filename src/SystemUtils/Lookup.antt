-- ===== src/SystemUtils/Lookup.antt =====
-- What `getPathToCommand` finds.
use buildbox_common.Prelude.{
  ◌≡◌, refl, inl, inr, Bool, true, false, ◌&&◌, List, [], ◌∷◌, Option, some, Bool-cases, arith,
  Text,
}
use buildbox_common.SystemUtils.{
  tokens_from, has_slash, located, in_directory, search_path, get_path_to_command,
}

module _ (is_regular_file : Text → Option Bool) (is_executable : Text → Bool) where
  -- The path is an executable file.
  abbrev pub Runs : Text → Type 0
  Runs path = (is_regular_file path ≡ some true) × (is_executable path ≡ true)

  -- What a search of directories in order comes to: the path in the first of them that has the
  -- command, or the empty path if none has.
  pub data FoundIn (command : Text) : List Text → Text → Type 0 where
    nowhere : FoundIn command [] []
    here :
        (dir : Text) (rest : List Text)
        → Runs (in_directory dir command)
        → FoundIn command (dir ∷ rest) (in_directory dir command)
    further :
        (dir : Text) (rest : List Text) (path : Text)
        → ¬ (Runs (in_directory dir command))
        → FoundIn command rest path
        → FoundIn command (dir ∷ rest) path

  both-Runs :
      (path : Text) (b : Bool)
      → is_regular_file path ≡ some b
      → b && is_executable path ≡ true
      → Runs path
  both-Runs path true e h = (e, ground arith)
  both-Runs path false e h = cc

  neither-Runs :
      (path : Text) (b : Bool)
      → is_regular_file path ≡ some b
      → b && is_executable path ≡ false
      → ¬ (Runs path)
  neither-Runs path true e h r = ground arith
  neither-Runs path false e h r = ground arith

  search-FoundIn :
      (command : Text) (dirs : List Text)
      → ((path : Text) → (b : Bool) × (is_regular_file path ≡ some b))
      → (path : Text) × (search_path is_regular_file is_executable command dirs ≡ located path)
        × FoundIn command dirs path
  unfolding search_path
  search-FoundIn command [] k = ([], refl, nowhere)
  search-FoundIn command (dir ∷ rest) k =
      let (path, e, found) = search-FoundIn command rest k in
      let p = in_directory dir command in
      let (b, regular) = k p in
      elim (Bool-cases (b && is_executable p)) [
        | inl has ↦ (p, rw (regular, has) refl, here dir rest (both-Runs p b regular has))
        | inr lacks ↦ (
          path,
          rw (regular, lacks) e,
          further dir rest path (neither-Runs p b regular lacks) found,
        )
      ]

  -- For a command without a slash, with `$PATH` set and all files open to examination,
  -- `getPathToCommand` returns the path in the first directory of `$PATH` that has the command as an
  -- executable file, and the empty path if none has.
  pub get_path_to_command-FoundIn :
      (command path_variable : Text)
      → has_slash command ≡ false
      → ((path : Text) → (b : Bool) × (is_regular_file path ≡ some b))
      → (path : Text) × (get_path_to_command is_regular_file is_executable
            (some path_variable)
            command
          ≡ located path)
        × FoundIn command (tokens_from [] path_variable) path
  unfolding get_path_to_command
  get_path_to_command-FoundIn command path_variable h k =
      let (path, e, found) = search-FoundIn command (tokens_from [] path_variable) k in
      (path, rw h e, found)
