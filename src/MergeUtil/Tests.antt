-- ===== src/MergeUtil/Tests.antt =====
-- Two trees that share a file.
use buildbox_common.Prelude.{◌≡◌, refl, false, List, [], ◌∷◌, none, Text, codes, length, arith}
use buildbox_common.Digest.{Digest}
use buildbox_common.Merklize.Messages.{FileNode, Directory}
use buildbox_common.MergeUtil.{NodeMap, merged, failed, create_merged_digest, build_flattened_path}
use buildbox_common.MergeUtil.Depth.{is_too_deep, build_flattened_path_ends}
use buildbox_common.MergeUtil.Flatten.{Agree, create_merged_digest-Agree}

abbrev file_of : Text → Text → FileNode
file_of name contents = record {
  name = name;
  digest = record { hash_other = contents; size_bytes = length contents };
  is_executable = false;
  mtime = none;
}

abbrev directory_of : List FileNode → Directory
directory_of files = record { files = files; symlinks = []; directories = [] }

abbrev input : Directory
input = directory_of (file_of (codes "run") (codes "x") ∷ [])

abbrev template : Directory
template =
    directory_of (file_of (codes "run") (codes "x") ∷ file_of (codes "lib") (codes "yz") ∷ [])

abbrev other : Directory
other = directory_of (file_of (codes "run") (codes "z") ∷ [])

-- Sizes in place of the bytes and the hash. No directory has subdirectories, so none is parsed.
abbrev serialize : Directory → Text
serialize d = length d.files ∷ length d.symlinks ∷ length d.directories ∷ []

abbrev parse : Text → Directory
parse blob = directory_of []

abbrev hash : Text → Digest
hash blob = record { hash_other = blob; size_bytes = length blob }

abbrev in_order : NodeMap → NodeMap
in_order map = map

abbrev root_blob : Text
root_blob = 2 ∷ 0 ∷ 0 ∷ []

merge_run :
    create_merged_digest serialize parse hash in_order 1 (input ∷ []) (template ∷ [])
    ≡ merged (hash root_blob) ((hash root_blob, root_blob) ∷ []) []
unfolding create_merged_digest buildbox_common.Digest.digest_eq buildbox_common.Merklize.put
    buildbox_common.Merklize.text_lt
merge_run = refl

merge_fails :
    create_merged_digest serialize parse hash in_order 1 (input ∷ []) (other ∷ []) ≡ failed
unfolding create_merged_digest buildbox_common.Digest.digest_eq
merge_fails = refl

create_merged_digest-Agree_example : Agree input.files template.files
create_merged_digest-Agree_example =
    create_merged_digest-Agree serialize parse hash in_order 1 input template [] [] (hash root_blob)
      ((hash root_blob, root_blob) ∷ []) [] merge_run

abbrev parent : Directory
parent = record {
  files = [];
  symlinks = [];
  directories = record { name = codes "sub"; digest = hash root_blob } ∷ [];
}

abbrev stored : List (Digest × Text)
stored = (hash root_blob, root_blob) ∷ []

-- No directory that is stored here has subdirectories.
build_flattened_path_ends_example :
    is_too_deep (build_flattened_path serialize parse hash 2 stored [] parent []) ≡ false
build_flattened_path_ends_example =
    build_flattened_path_ends serialize parse hash stored (λ d. 0) (λ d blob found. tt) 1 [] parent
      [] (omega arith, tt)
