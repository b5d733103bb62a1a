-- ===== src/Client/Download/Tests.antt =====
-- A server that sends the wrong data for one of two small blobs.
use buildbox_common.Prelude.{
  ℕ, ◌+◌, ◌≡◌, refl, false, true, List, [], ◌∷◌, map, none, Text, codes, length,
}
use buildbox_common.Digest.{Digest}
use buildbox_common.Retrier.{Status, ok_code, internal}
use buildbox_common.Client.Requests.{ok, Settings, Attempt}
use buildbox_common.Client.Download.{
  Source, Names, DownloadBlobsResult, download_to_result, make_resource_name,
}
use buildbox_common.Client.Download.Files.{OutputMap, download_to_files}
use buildbox_common.Client.Download.Verified.{all_verified, download_to_result-all_verified}

abbrev settings : Settings
settings = record { grpc_retry_limit = 1; grpc_retry_delay = 100 }

abbrev names : Names
names = record { instance_name = codes "dev"; uuid = codes "1234" }

-- A hash that is the text itself.
abbrev plain_hash : Text → Digest
plain_hash bytes = record { hash_other = bytes; size_bytes = length bytes }

abbrev fine : Status
fine = record { error_code = ok_code; error_details = [] }

abbrev source : Source
source = record {
  World = ℕ;
  read_stream = λ resource offset w. (fine, codes "b" ∷ codes "ig" ∷ [], w + 1);
  batch_read_blobs = λ ds w. (
    fine,
    map (λ (d : Digest). record { digest = d; status = fine; data_bytes = codes "a" }) ds,
    w + 1,
  );
  retry_info = λ details. none;
  hash = plain_hash;
  sort_digests = λ ds. ds;
}

abbrev wanted : List Digest
wanted = plain_hash (codes "a") ∷ plain_hash (codes "b") ∷ plain_hash (codes "big") ∷ []

abbrev downloaded : DownloadBlobsResult source settings names
downloaded =
    (codes "b", (record { error_code = internal; error_details = [] }, []))
    ∷ (codes "a", (fine, codes "a"))
    ∷ []

run_batch :
    download_to_result source settings names 1100
      (plain_hash (codes "a") ∷ plain_hash (codes "b") ∷ [])
      0
    ≡ (ok downloaded, 1)
unfolding download_to_result buildbox_common.Client.Batches.make_batches
    buildbox_common.Client.Requests.issue_request_and_throw_on_errors
    buildbox_common.Retrier.issue_request buildbox_common.Client.Upload.last_end
run_batch = refl

resource :
    make_resource_name names (plain_hash (codes "big")) true ≡ codes "dev/uploads/1234/blobs/big/3"
unfolding make_resource_name
resource = refl

download_to_result-all_verified_example :
    (result : DownloadBlobsResult source settings names) × (w' : ℕ) × (download_to_result source
        settings names 1100 wanted 0
      ≡ (ok result, w'))
    × (all_verified source settings names result ≡ true)
download_to_result-all_verified_example =
    download_to_result-all_verified source settings names 1100 wanted 0

-- The files that are written, with their permissions.
abbrev write_log : Text → Text → ℕ → List (Text × ℕ) → Attempt (Unit {0}) × List (Text × ℕ)
write_log path bytes mode s = (ok tt, (path, mode) ∷ s)

abbrev outputs : OutputMap
outputs = (codes "a", (codes "out/a", true)) ∷ (codes "b", (codes "out/b", false)) ∷ []

-- The blob with the wrong data is not written, and no exception says so.
run_files :
    download_to_files write_log source settings names 1100
      (plain_hash (codes "a") ∷ plain_hash (codes "b") ∷ [])
      outputs
      ([], 0)
    ≡ (ok tt, ((codes "out/a", 493) ∷ [], 1))
unfolding download_to_files buildbox_common.Client.Batches.make_batches
    buildbox_common.Client.Requests.issue_request_and_throw_on_errors
    buildbox_common.Retrier.issue_request buildbox_common.Client.Upload.last_end
run_files = refl
