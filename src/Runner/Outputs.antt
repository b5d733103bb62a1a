-- ===== src/Runner/Outputs.antt =====
-- `Runner::createOutputDirectories` and `Runner::uploadOutputs`. The latter's client is that of
-- Client/Upload, and `CASHash::hashFile` is a parameter.
pub mod Parents
pub mod Kept
mod Tests
use buildbox_common.Prelude.{
  ℕ, Bool, true, false, List, [], ◌∷◌, ◌++◌, Option, none, some, if◌then◌else◌, Text,
}
use buildbox_common.Digest.{Digest, digest_eq}
use buildbox_common.Path.{slash, cut_last}
use buildbox_common.Directories.{Disk, Creation, created, system_error, too_deep, create_directory}
use buildbox_common.Client.Requests.{Attempt, ok, grpc_error, runtime_error, stuck, Settings}
use buildbox_common.Client.Upload.{UploadRequest, UploadResult, Backend, upload_blobs}
use buildbox_common.Runner.{Command}

module _ (D : Disk) where
  abbrev pub create_parent : Text → Option (Text × Text) → D.World → Creation × D.World
  create_parent working_dir none w = (created, w)
  create_parent working_dir (some (before, after)) w =
      create_directory D (working_dir ++ slash ∷ before) w

  -- The lambda `createDirectoryIfNeeded`.
  abbrev pub create_directory_if_needed : Text → Text → D.World → Creation × D.World
  create_directory_if_needed working_dir output w = create_parent working_dir (cut_last output) w

  -- A round of `std::for_each`, which an exception leaves.
  abbrev pub then_create : (D.World → Creation × D.World) → Creation × D.World → Creation × D.World
  then_create go_on (created, w) = go_on w
  then_create go_on (system_error, w) = (system_error, w)
  then_create go_on (too_deep, w) = (too_deep, w)

  unfoldable pub create_each : Text → List Text → D.World → Creation × D.World
  create_each working_dir [] w = (created, w)
  create_each working_dir (output ∷ rest) w =
      then_create (create_each working_dir rest) (create_directory_if_needed working_dir output w)

  abbrev pub create_outputs : List Text → Command → Text → D.World → Creation × D.World
  create_outputs (p ∷ ps) command working_dir w = create_each working_dir (p ∷ ps) w
  create_outputs [] command working_dir w =
      then_create (create_each working_dir command.output_directories)
        (create_each working_dir command.output_files w)

  -- `createOutputDirectories`
  unfoldable pub create_output_directories : Command → Text → D.World → Creation × D.World
  create_output_directories command working_dir w =
      create_outputs command.output_paths command working_dir w

abbrev pub no_digest : Digest
no_digest = record { hash_other = []; size_bytes = 0 }

-- The loop over the failed blobs.
unfoldable pub clear_failed : Digest → Digest → List UploadResult → Digest × Digest
clear_failed stdout_digest stderr_digest [] = (stdout_digest, stderr_digest)
clear_failed stdout_digest stderr_digest (blob ∷ rest) =
    elim (digest_eq blob.digest stdout_digest) [
      | true ↦ clear_failed no_digest stderr_digest rest
      | false ↦ clear_failed stdout_digest no_digest rest
    ]

-- `UploadRequest::from_path`
abbrev pub from_path : Digest → Text → UploadRequest
from_path digest path = record { digest = digest; data_bytes = []; path = path }

module _ (B : Backend) (c : Settings) (max_total : ℕ) where
  abbrev pub after_upload_blobs :
      Digest → Digest → Attempt (List UploadResult) × B.World → Attempt (Digest × Digest) × B.World
  after_upload_blobs stdout_digest stderr_digest (ok failed, w) =
      (ok (clear_failed stdout_digest stderr_digest failed), w)
  after_upload_blobs stdout_digest stderr_digest (grpc_error status, w) =
      (ok (no_digest, no_digest), w)
  after_upload_blobs stdout_digest stderr_digest (runtime_error, w) = (ok (no_digest, no_digest), w)
  after_upload_blobs stdout_digest stderr_digest (stuck, w) = (stuck, w)

  -- `uploadOutputs`; `hash_file` is `none` where it throws, which is not caught here.
  unfoldable pub upload_outputs :
      (Text → B.World → Option Digest) → Text → Text → B.World → Attempt (Digest × Digest) × B.World
  upload_outputs hash_file stdout_file stderr_file w = elim (hash_file stdout_file w) [
    | none ↦ (runtime_error, w)
    | some stdout_digest ↦ elim (hash_file stderr_file w) [
      | none ↦ (runtime_error, w)
      | some stderr_digest ↦ after_upload_blobs stdout_digest stderr_digest (
          upload_blobs B c max_total
            (from_path stdout_digest stdout_file ∷ from_path stderr_digest stderr_file ∷ []) false
            w)
    ]
  ]
