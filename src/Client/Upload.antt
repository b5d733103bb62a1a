-- ===== src/Client/Upload.antt =====
-- `Client::batchUpload` and `Client::uploadBlobs`. The stub's `BatchUpdateBlobs()`, reading a file,
-- `std::sort` and the upload of one blob by the ByteStream API (`Client::uploadRequest`) are parameters.
pub mod Answer
use buildbox_common.Prelude.{
  ℕ, ◌-◌, Bool, true, false, not, List, [], ◌∷◌, ◌++◌, map, Option, none, some, ◌==◌, if◌then◌else◌,
  Text, take, drop,
}
use buildbox_common.Prelude.Int.{ℤ}
use buildbox_common.Digest.{Digest}
use buildbox_common.Retrier.{Status, Service, is_ok, internal}
use buildbox_common.Client.Batches.{make_batches}
use buildbox_common.Client.Requests.{
  Attempt, ok, grpc_error, runtime_error, stuck, Settings, issue_request_and_throw_on_errors,
}

-- `Client::UploadRequest`: the data, or the path of a file where that is not empty.
pub record UploadRequest : Type 0 where
  pub digest : Digest
  pub data_bytes : Text
  pub path : Text

-- `Client::UploadResult`, and an entry of a `BatchUpdateBlobsResponse`.
pub record UploadResult : Type 0 where
  pub digest : Digest
  pub status : Status

pub record Backend : Type 1 where
  pub World : Type 0
  pub batch_update_blobs : List (Digest × Text) → World → Status × List UploadResult × World
  pub retry_info : Text → Option ℤ
  -- `FileUtils::getFileContents`; `none` is the exception of a file that cannot be read.
  pub file_contents : Text → World → Option Text
  pub upload_request : UploadRequest → World → Attempt (Unit {0}) × World
  -- `std::sort` by the sizes of the digests.
  pub sort_by_size : List UploadRequest → List UploadRequest

abbrev pub internal_status : Status
internal_status = record { error_code = internal; error_details = [] }

-- `grpc::Status` of the code and the message of an entry's status, without its details.
abbrev pub without_details : Status → Status
without_details status = record { error_code = status.error_code; error_details = [] }

-- The entries whose status is not OK.
pub failed_results : List UploadResult → List UploadResult
failed_results [] = []
failed_results (r ∷ rest) =
    if is_ok r.status
    then failed_results rest
    else (record { digest = r.digest; status = without_details r.status }) ∷ failed_results rest

abbrev pub slice {ℓ} : {A : Type ℓ} → ℕ → ℕ → List A → List A
slice a b xs = take (b - a) (drop a xs)

-- `batches.empty() ? 0 : batches.rbegin()->second`
unfoldable pub last_end : List (ℕ × ℕ) → ℕ
last_end [] = 0
last_end ((a, b) ∷ []) = b
last_end ((a, b) ∷ c ∷ rest) = last_end (c ∷ rest)

module _ (B : Backend) (c : Settings) where
  -- The contents for one request of a batch.
  abbrev pub blob : UploadRequest → B.World → Option Text
  blob r w = elim r.path [ [] ↦ some r.data_bytes | x ∷ xs ↦ B.file_contents (x ∷ xs) w ]

  -- The loop that builds the request.
  pub build_request : List UploadRequest → B.World → Option (List (Digest × Text))
  build_request [] w = some []
  build_request (r ∷ rest) w =
      let more = build_request rest w in
      elim (blob r w) [
        | none ↦ none
        | some contents ↦ elim more [
          | none ↦ none
          | some entries ↦ some ((r.digest, contents) ∷ entries)
        ]
      ]

  abbrev pub batch_service : List (Digest × Text) → Service
  batch_service entries = record {
    World = List UploadResult × B.World;
    invocation = λ s.
        let (status, responses, w) = B.batch_update_blobs entries s.1 in (status, (responses, w));
    retry_info = B.retry_info;
  }

  abbrev pub after_batch :
      Attempt (Unit {0}) × (List UploadResult × B.World) → Attempt (List UploadResult) × B.World
  after_batch (ok _, (responses, w)) = (ok (failed_results responses), w)
  after_batch (grpc_error status, (_, w)) = (grpc_error status, w)
  after_batch (runtime_error, (_, w)) = (runtime_error, w)
  after_batch (stuck, (_, w)) = (stuck, w)

  -- `batchUpload` on the requests of one batch.
  pub batch_upload : List UploadRequest → B.World → Attempt (List UploadResult) × B.World
  unfolding build_request failed_results
  batch_upload requests w = elim (build_request requests w) [
    | none ↦ (runtime_error, w)
    | some entries ↦
        after_batch (issue_request_and_throw_on_errors (batch_service entries) c ([], w))
  ]

  abbrev pub all_failed : List UploadRequest → List UploadResult
  all_failed = map (λ (r : UploadRequest). record { digest = r.digest; status = internal_status })

  abbrev pub Results : Type 0
  Results = Attempt (List UploadResult) × B.World

  -- One round of the loop over the batches; a failed batch is rethrown, or all of it is reported.
  abbrev pub after_batch_upload :
      Bool
      → List UploadRequest
      → List UploadResult
      → (List UploadResult → B.World → Results)
      → Attempt (List UploadResult) × B.World
      → Results
  after_batch_upload throw_on_error batch results go_on (ok failed, w) = go_on (results ++ failed) w
  after_batch_upload true batch results go_on (grpc_error status, w) = (runtime_error, w)
  after_batch_upload false batch results go_on (grpc_error status, w) =
      go_on (results ++ all_failed batch) w
  after_batch_upload true batch results go_on (runtime_error, w) = (runtime_error, w)
  after_batch_upload false batch results go_on (runtime_error, w) =
      go_on (results ++ all_failed batch) w
  after_batch_upload throw_on_error batch results go_on (stuck, w) = (stuck, w)

  -- The last loop, over the blobs that are uploaded one by one.
  abbrev pub after_upload :
      Bool
      → UploadRequest
      → List UploadResult
      → (List UploadResult → B.World → Results)
      → Attempt (Unit {0}) × B.World
      → Results
  after_upload throw_on_error r results go_on (ok _, w) = go_on results w
  after_upload true r results go_on (grpc_error status, w) = (runtime_error, w)
  after_upload false r results go_on (grpc_error status, w) =
      go_on (results ++ (record { digest = r.digest; status = status }) ∷ []) w
  after_upload true r results go_on (runtime_error, w) = (runtime_error, w)
  after_upload false r results go_on (runtime_error, w) =
      go_on (results ++ (record { digest = r.digest; status = internal_status }) ∷ []) w
  after_upload throw_on_error r results go_on (stuck, w) = (stuck, w)

  pub upload_rest : Bool → List UploadRequest → List UploadResult → B.World → Results
  upload_rest throw_on_error [] results w = (ok results, w)
  upload_rest throw_on_error (r ∷ rest) results w =
      after_upload throw_on_error r results (upload_rest throw_on_error rest) (B.upload_request r w)

  -- The loop over the batches, and then the last loop from `end` on.
  pub upload_batches :
      Bool → List UploadRequest → ℕ → List (ℕ × ℕ) → List UploadResult → B.World → Results
  unfolding upload_rest
  upload_batches throw_on_error request_list end [] results w =
      upload_rest throw_on_error (drop end request_list) results w
  upload_batches throw_on_error request_list end ((a, b) ∷ more) results w =
      after_batch_upload throw_on_error (slice a b request_list) results
        (upload_batches throw_on_error request_list end more)
        (batch_upload (slice a b request_list) w)

  -- `uploadBlobs`, with `d_maxBatchTotalSizeBytes` for an argument.
  unfoldable pub upload_blobs : ℕ → List UploadRequest → Bool → B.World → Results
  unfolding upload_batches batch_upload last_end
  upload_blobs max_total requests throw_on_error w =
      let request_list = B.sort_by_size requests in
      let batches = make_batches max_total (map (λ (r : UploadRequest). r.digest) request_list) in
      upload_batches throw_on_error request_list (last_end batches) batches [] w
