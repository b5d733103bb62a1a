-- ===== src/Client/Download/Files.antt =====
-- `Client::downloadBlobs` into files. Writing a file, `FileUtils::writeFileAtomically`, is a parameter;
-- the entries of a hash are gone over in the order of the list that stands for the multimap.
use buildbox_common.Prelude.{ℕ, ◌+◌, Bool, true, false, List, [], ◌∷◌, if◌then◌else◌, Text, text_eq}
use buildbox_common.Digest.{Digest}
use buildbox_common.Client.Requests.{Attempt, ok, grpc_error, runtime_error, stuck, Settings}
use buildbox_common.Client.Download.{Source, Names, DownloadResult, download_blobs}

-- `OutputMap`: the path, and whether the file is executable.
abbrev pub OutputMap : Type 0
OutputMap = List (Text × (Text × Bool))

-- `S_IRUSR | S_IWUSR | S_IRGRP | S_IROTH`, and the bits `S_IXUSR | S_IXGRP | S_IXOTH`.
abbrev pub file_permissions : Bool → ℕ
file_permissions true = 420 + 73
file_permissions false = 420

module _ {S : Type 0} (write_file : Text → Text → ℕ → S → Attempt (Unit {0}) × S) where
  unfoldable pub after_file :
      (S → Attempt (Unit {0}) × S) → Attempt (Unit {0}) × S → Attempt (Unit {0}) × S
  after_file go_on (ok _, s) = go_on s
  after_file go_on (grpc_error status, s) = (grpc_error status, s)
  after_file go_on (runtime_error, s) = (runtime_error, s)
  after_file go_on (stuck, s) = (stuck, s)

  -- The callback, which writes the data to each path of its hash.
  unfoldable pub write_outputs : OutputMap → Text → Text → S → Attempt (Unit {0}) × S
  unfolding after_file text_eq
  write_outputs [] hash bytes s = (ok tt, s)
  write_outputs ((h, (path, is_executable)) ∷ rest) hash bytes s =
      let more = write_outputs rest hash bytes in
      if text_eq h hash
      then after_file more (write_file path bytes (file_permissions is_executable) s)
      else more s

  module _ (B : Source) (c : Settings) (n : Names) where
    -- The results of the single blobs are dropped.
    unfoldable pub drop_results :
        Attempt (List DownloadResult) × (S × B.World) → Attempt (Unit {0}) × (S × B.World)
    drop_results (ok _, w) = (ok tt, w)
    drop_results (grpc_error status, w) = (grpc_error status, w)
    drop_results (runtime_error, w) = (runtime_error, w)
    drop_results (stuck, w) = (stuck, w)

    -- `downloadBlobs` into files.
    unfoldable pub download_to_files :
        ℕ → List Digest → OutputMap → S × B.World → Attempt (Unit {0}) × (S × B.World)
    unfolding write_outputs download_blobs drop_results
    download_to_files max_total digests outputs w =
        drop_results (download_blobs B c n (write_outputs outputs) max_total digests true w)
