-- ===== src/StagedDirectory/Tests.antt =====
-- Paths of outputs, and a file system that opens every name.
use mathlib.Core.List.{Memᴰ}
use mathlib.Core.List.Memᴰ
use buildbox_common.Prelude.{
  ℕ, ◌+◌, ◌<◌, ◌≡◌, refl, sym, ap, ◌∙◌, ◌⊎◌, Bool, true, false, List, [], ◌∷◌, ◌++◌, Option, none,
  some, inl, inr, arith, if◌then◌else◌, ◌==◌, Text, text_eq, codes, All, All-append,
}
use buildbox_common.Digest.{Digest}
use buildbox_common.Runner.{Command}
use buildbox_common.StagedDirectory.{
  working_directory_of, path_in_input_root, OutputFile, OutputDirectory, StatMode, is_dir, is_reg,
  is_absent, Capture, Captured, capture_all_outputs,
}
use buildbox_common.StagedDirectory.Open.{
  components, Opener, open_directory_in_input_root, open_file_in_input_root,
}
use buildbox_common.StagedDirectory.Safe.{IsBelowRoot, IsKept, capture_all_outputs-kept}
use buildbox_common.StagedDirectory.Descriptors.{
  remove, IsTable, Opened, open_directory_in_input_root-added,
}

working : working_directory_of (codes "build/./") ≡ some (codes "build/")
unfolding working_directory_of buildbox_common.Path.normalize_path buildbox_common.Prelude.drop_last
    buildbox_common.Prelude.starts_with
working = refl

in_root : path_in_input_root (codes "../out//log") (codes "build/") ≡ some (codes "out/log")
unfolding path_in_input_root text_eq buildbox_common.Path.normalize_path
    buildbox_common.Prelude.drop_last buildbox_common.Prelude.starts_with
in_root = refl

outside : path_in_input_root (codes "../../etc") (codes "build/") ≡ none
unfolding path_in_input_root text_eq buildbox_common.Path.normalize_path
    buildbox_common.Prelude.drop_last buildbox_common.Prelude.starts_with
outside = refl

-- With two slashes in a row a component is an absolute path.
two_slashes : components (codes "out//etc") ≡ codes "out" ∷ (codes "/etc" ∷ [])
unfolding components buildbox_common.StagedDirectory.Open.components_from
    buildbox_common.Path.ends_with_slash
two_slashes = refl

-- The world is the table of the open descriptors. A new one is above all that are open.
abbrev above : List ℕ → ℕ
above [] = 1
above (fd ∷ rest) = fd + above rest

lt-above : (fd : ℕ) (table : List ℕ) → Memᴰ fd table → fd < above table
lt-above fd [] m = absurd (Memᴰ.not-nil m)
lt-above fd (x ∷ rest) m = elim (Memᴰ.cases_cons m) [
  | inl e ↦ let positive = above-positive rest in omega arith
  | inr there ↦ let below = lt-above fd rest there in omega arith
]
  where
    above-positive : (l : List ℕ) → 0 < above l
    above-positive [] = omega arith
    above-positive (y ∷ l) = let rest = above-positive l in omega arith

abbrev opener : Opener
opener = record {
  World = List ℕ;
  open_directory_at = λ at name w. (inr (above w), above w ∷ w);
  open_file_at = λ at name w. (inr (above w), above w ∷ w);
  close = remove;
}

abbrev descriptor : ℕ ⊎ ℕ → ℕ
descriptor (inl errno) = 0
descriptor (inr fd) = fd

opener-IsTable : IsTable opener (λ w. w)
opener-IsTable = record {
  opens = λ at new name w v e.
      let same : above w ≡ new = ap (λ x. descriptor x.0) e in
      (
        sym (ap (λ x. x.1) e) ∙ ap (λ fd. fd ∷ w) same,
        λ m. let below = lt-above new w m in omega arith,
      );
  closes = λ fd w m. refl;
}

abbrev table_after : List ℕ
table_after = 3 ∷ (2 ∷ (0 ∷ []))

three_levels : open_directory_in_input_root opener 0 (codes "a/b/c") (0 ∷ []) ≡ (inr 3, table_after)
unfolding open_directory_in_input_root buildbox_common.StagedDirectory.Open.open_components
    buildbox_common.StagedDirectory.Open.components_from remove
three_levels = refl

open_directory_in_input_root-added_example :
    Opened opener 0 (λ w. w) opener-IsTable (components (codes "a/b/c")) 3 (0 ∷ []) table_after
open_directory_in_input_root-added_example =
    open_directory_in_input_root-added opener 0 (λ w. w) opener-IsTable (codes "a/b/c") 3 (0 ∷ [])
      table_after (Memᴰ.head refl) three_levels

-- A file, a directory and an output that is missing.
abbrev command : Command
command = record {
  arguments = [];
  output_files = [];
  output_directories = [];
  output_paths = codes "log" ∷ (codes "none" ∷ (codes "gen" ∷ []));
  working_directory = codes "build";
}

abbrev digest : Digest
digest = record { hash_other = codes "d"; size_bytes = 3 }

abbrev capture : Capture
capture = record {
  World = List Text;
  capture_file_function = λ path w. (
    some (record { path = path; digest = digest; is_executable = false; mtime = none }),
    w ++ path ∷ [],
  );
  capture_directory_function =
      λ path w. (some (record { path = path; tree_digest = digest }), w ++ path ∷ []);
  get_stat_mode = λ path w.
      if text_eq path (codes "build/log")
      then is_reg
      else if text_eq path (codes "build/gen")
      then is_dir
      else is_absent;
}

abbrev nothing : Captured
nothing = record { output_files = []; output_directories = [] }

abbrev both : Captured
both = record {
  output_files =
      (record { path = codes "log"; digest = digest; is_executable = false; mtime = none }) ∷ [];
  output_directories = (record { path = codes "gen"; tree_digest = digest }) ∷ [];
}

captured :
    capture_all_outputs capture command nothing []
    ≡ (some both, codes "build/log" ∷ (codes "build/gen" ∷ []))
unfolding capture_all_outputs buildbox_common.Path.normalize_path buildbox_common.Prelude.drop_last
    buildbox_common.Prelude.starts_with buildbox_common.StagedDirectory.capture_each
    buildbox_common.StagedDirectory.with_output_directory
    buildbox_common.StagedDirectory.with_output_file
captured = refl

-- The paths that the callbacks were called on.
abbrev AllBelowRoot : List Text → Type 0
AllBelowRoot = All IsBelowRoot

capture-IsKept : IsKept capture AllBelowRoot
capture-IsKept = record {
  by_file = λ path w b h. All-append IsBelowRoot w (path ∷ []) h (b, tt);
  by_directory = λ path w b h. All-append IsBelowRoot w (path ∷ []) h (b, tt);
}

capture_all_outputs-kept_example : AllBelowRoot (capture_all_outputs capture command nothing []).1
capture_all_outputs-kept_example =
    capture_all_outputs-kept capture AllBelowRoot capture-IsKept command nothing [] tt
