-- ===== src/Client/Download.antt =====
-- `Client::fetchString`, `Client::batchDownload` and `Client::downloadBlobs` into a result, without a
-- temporary directory. The stubs, the hash function of the `DigestGenerator` and `std::sort` are
-- parameters. Texts of errors are left out.
pub mod Guarded
pub mod Files
pub mod Verified
mod Tests
use mathlib.Core.List.{flatten}
use buildbox_common.Prelude.{
  ℕ, Bool, true, false, not, ◌&&◌, List, [], ◌∷◌, ◌++◌, map, Option, none, some, ◌==◌,
  if◌then◌else◌, Text, text_eq, codes, drop, length,
}
use buildbox_common.Prelude.Int.{ℤ}
use buildbox_common.Prelude.Maps.{map_emplace}
use buildbox_common.Numbers.{to_string}
use buildbox_common.Digest.{Digest, digest_eq}
use buildbox_common.Retrier.{Status, Service, is_ok, ok_code}
use buildbox_common.Client.Batches.{make_batches}
use buildbox_common.Client.Requests.{
  Attempt, ok, grpc_error, runtime_error, stuck, Settings, issue_request_and_throw_on_errors,
}
use buildbox_common.Client.Upload.{slice, last_end, internal_status}

-- `Client::DownloadResult`
pub record DownloadResult : Type 0 where
  pub digest : Digest
  pub status : Status

-- An entry of a `BatchReadBlobsResponse`.
pub record BlobResponse : Type 0 where
  pub digest : Digest
  pub status : Status
  pub data_bytes : Text

-- `Read()` of the ByteStream stub, for a resource and an offset, gives the data of its responses and
-- what `Finish()` returns.
pub record Source : Type 1 where
  pub World : Type 0
  pub read_stream : Text → ℕ → World → Status × List Text × World
  pub batch_read_blobs : List Digest → World → Status × List BlobResponse × World
  pub retry_info : Text → Option ℤ
  pub hash : Text → Digest
  -- `std::sort` by the sizes of the digests.
  pub sort_digests : List Digest → List Digest

-- `d_instanceName` and `d_uuid`.
pub record Names : Type 0 where
  pub instance_name : Text
  pub uuid : Text

-- `makeResourceName`
unfoldable pub make_resource_name : Names → Digest → Bool → Text
unfolding text_eq to_string
make_resource_name n digest is_upload =
    (if text_eq n.instance_name [] then [] else n.instance_name ++ codes "/")
    ++ ((if is_upload then codes "uploads/" ++ (n.uuid ++ codes "/") else [])
        ++ (codes "blobs/" ++ (digest.hash_other ++ (codes "/" ++ to_string digest.size_bytes))))

-- What the lambda of `fetchString` leaves: no result yet, the data, or an exception.
pub data Fetched : Type 0 where
  nothing_fetched : Fetched
  fetched : Text → Fetched
  mismatch : Fetched

module _ (B : Source) (c : Settings) (n : Names) where
  -- The checks of the size and of the digest.
  unfoldable pub check_blob : Digest → Text → Fetched
  unfolding digest_eq
  check_blob digest bytes =
      if length bytes == digest.size_bytes && digest_eq (B.hash bytes) digest
      then fetched bytes
      else mismatch

  -- The lambda. An exception leaves it only where the status is OK, with which the loop of the retrier
  -- ends all the same.
  abbrev pub fetch_service : Digest → Service
  fetch_service digest = record {
    World = Fetched × B.World;
    invocation = λ s.
        let (status, chunks, w) = B.read_stream (make_resource_name n digest false) 0 s.1 in
        (status, (if is_ok status then check_blob digest (flatten chunks) else s.0, w));
    retry_info = B.retry_info;
  }

  unfoldable pub after_fetch : Attempt (Unit {0}) × (Fetched × B.World) → Attempt Text × B.World
  after_fetch (ok _, (fetched bytes, w)) = (ok bytes, w)
  after_fetch (ok _, (nothing_fetched, w)) = (ok [], w)
  after_fetch (ok _, (mismatch, w)) = (runtime_error, w)
  after_fetch (grpc_error status, (_, w)) = (grpc_error status, w)
  after_fetch (runtime_error, (_, w)) = (runtime_error, w)
  after_fetch (stuck, (_, w)) = (stuck, w)

  -- `fetchString`
  unfoldable pub fetch_string : Digest → B.World → Attempt Text × B.World
  unfolding check_blob make_resource_name after_fetch
  fetch_string digest w =
      after_fetch (issue_request_and_throw_on_errors (fetch_service digest) c (nothing_fetched, w))

  -- `write_blob` is a function on a state of its own, which it may leave by an exception.
  module _ {S : Type 0} (write_blob : Text → Text → S → Attempt (Unit {0}) × S) where
    abbrev pub DownloadResults : Type 0
    DownloadResults = Attempt (List DownloadResult) × (S × B.World)

    unfoldable pub after_write :
        (S → Attempt (List DownloadResult) × S)
        → Attempt (Unit {0}) × S
        → Attempt (List DownloadResult) × S
    after_write go_on (ok _, s) = go_on s
    after_write go_on (grpc_error status, s) = (grpc_error status, s)
    after_write go_on (runtime_error, s) = (runtime_error, s)
    after_write go_on (stuck, s) = (stuck, s)

    -- The loop over the responses of a batch.
    unfoldable pub read_responses :
        List BlobResponse → List DownloadResult → S → Attempt (List DownloadResult) × S
    unfolding digest_eq after_write
    read_responses [] results s = (ok results, s)
    read_responses (r ∷ rest) results s =
        let entry : DownloadResult = record { digest = r.digest; status = r.status } in
        let go_on = read_responses rest (results ++ entry ∷ []) in
        if is_ok r.status
        then if digest_eq (B.hash r.data_bytes) r.digest
          then after_write go_on (write_blob r.digest.hash_other r.data_bytes s)
          else read_responses rest (results ++ (record entry { status = internal_status }) ∷ []) s
        else go_on s

    abbrev pub read_service : List Digest → Service
    read_service digests = record {
      World = List BlobResponse × B.World;
      invocation = λ s.
          let (status, responses, w) = B.batch_read_blobs digests s.1 in (status, (responses, w));
      retry_info = B.retry_info;
    }

    unfoldable pub after_read :
        S → Attempt (Unit {0}) × (List BlobResponse × B.World) → DownloadResults
    unfolding read_responses
    after_read s (ok _, (responses, w)) =
        let (results, s') = read_responses responses [] s in (results, (s', w))
    after_read s (grpc_error status, (_, w)) = (grpc_error status, (s, w))
    after_read s (runtime_error, (_, w)) = (runtime_error, (s, w))
    after_read s (stuck, (_, w)) = (stuck, (s, w))

    -- `batchDownload` on the digests of one batch.
    unfoldable pub batch_download : List Digest → S × B.World → DownloadResults
    unfolding after_read
    batch_download digests (s, w) =
        after_read s (issue_request_and_throw_on_errors (read_service digests) c ([], w))

    abbrev pub all_failed : List Digest → List DownloadResult
    all_failed = map (λ (d : Digest). record { digest = d; status = internal_status })

    -- One round of the loop over the batches; a failed batch is rethrown, or all of it is reported.
    unfoldable pub after_batch_download :
        Bool
        → List Digest
        → List DownloadResult
        → (List DownloadResult → S × B.World → DownloadResults)
        → DownloadResults
        → DownloadResults
    after_batch_download throw_on_error batch results go_on (ok more, w) = go_on (results ++ more) w
    after_batch_download true batch results go_on (grpc_error status, w) = (runtime_error, w)
    after_batch_download false batch results go_on (grpc_error status, w) =
        go_on (results ++ all_failed batch) w
    after_batch_download true batch results go_on (runtime_error, w) = (runtime_error, w)
    after_batch_download false batch results go_on (runtime_error, w) =
        go_on (results ++ all_failed batch) w
    after_batch_download throw_on_error batch results go_on (stuck, w) = (stuck, w)

    -- The download of one blob alone: the data is fetched and written.
    unfoldable pub write_fetched :
        Digest → S → Attempt Text × B.World → Attempt (Unit {0}) × (S × B.World)
    write_fetched digest s (ok bytes, w) =
        let (attempt, s') = write_blob digest.hash_other bytes s in (attempt, (s', w))
    write_fetched digest s (grpc_error status, w) = (grpc_error status, (s, w))
    write_fetched digest s (runtime_error, w) = (runtime_error, (s, w))
    write_fetched digest s (stuck, w) = (stuck, (s, w))

    abbrev pub result_of : Digest → Status → DownloadResult
    result_of digest status = record { digest = digest; status = status }

    unfoldable pub after_download :
        Bool
        → Digest
        → List DownloadResult
        → (List DownloadResult → S × B.World → DownloadResults)
        → Attempt (Unit {0}) × (S × B.World)
        → DownloadResults
    after_download throw_on_error d results go_on (ok _, w) =
        go_on (results ++ result_of d (record { error_code = ok_code; error_details = [] }) ∷ []) w
    after_download true d results go_on (grpc_error status, w) = (runtime_error, w)
    after_download false d results go_on (grpc_error status, w) =
        go_on
          (results
            ++ result_of d (record { error_code = status.error_code; error_details = [] }) ∷ [])
          w
    after_download true d results go_on (runtime_error, w) = (runtime_error, w)
    after_download false d results go_on (runtime_error, w) =
        go_on (results ++ result_of d internal_status ∷ []) w
    after_download throw_on_error d results go_on (stuck, w) = (stuck, w)

    -- The last loop, over the blobs that are downloaded one by one.
    unfoldable pub download_rest :
        Bool → List Digest → List DownloadResult → S × B.World → DownloadResults
    unfolding fetch_string write_fetched after_download
    download_rest throw_on_error [] results w = (ok results, w)
    download_rest throw_on_error (d ∷ rest) results w =
        after_download throw_on_error d results (download_rest throw_on_error rest)
          (write_fetched d w.0 (fetch_string d w.1))

    -- The loop over the batches, and then the last loop from `end` on.
    unfoldable pub download_batches :
        Bool → List Digest → ℕ → List (ℕ × ℕ) → List DownloadResult → S × B.World → DownloadResults
    unfolding download_rest batch_download after_batch_download
    download_batches throw_on_error request_list end [] results w =
        download_rest throw_on_error (drop end request_list) results w
    download_batches throw_on_error request_list end ((a, b) ∷ more) results w =
        after_batch_download throw_on_error (slice a b request_list) results
          (download_batches throw_on_error request_list end more)
          (batch_download (slice a b request_list) w)

    -- `downloadBlobs` with a callback, and with `d_maxBatchTotalSizeBytes` for an argument.
    unfoldable pub download_blobs : ℕ → List Digest → Bool → S × B.World → DownloadResults
    unfolding download_batches
    download_blobs max_total digests throw_on_error w =
        let request_list = B.sort_digests digests in
        let batches = make_batches max_total request_list in
        download_batches throw_on_error request_list (last_end batches) batches [] w

  -- `DownloadBlobsResult`
  abbrev pub DownloadBlobsResult : Type 0
  DownloadBlobsResult = List (Text × (Status × Text))

  -- The callback that writes into the result.
  unfoldable pub write_result :
      Text → Text → DownloadBlobsResult → Attempt (Unit {0}) × DownloadBlobsResult
  unfolding map_emplace
  write_result hash bytes result =
      (ok tt, map_emplace result hash (record { error_code = ok_code; error_details = [] }, bytes))

  -- The loop that adds the digests that failed.
  unfoldable pub add_failed : List DownloadResult → DownloadBlobsResult → DownloadBlobsResult
  unfolding map_emplace
  add_failed [] result = result
  add_failed (r ∷ rest) result =
      let added = map_emplace result r.digest.hash_other (r.status, []) in
      add_failed rest (if is_ok r.status then result else added)

  unfoldable pub finish_download :
      Attempt (List DownloadResult) × (DownloadBlobsResult × B.World)
      → Attempt DownloadBlobsResult × B.World
  unfolding add_failed
  finish_download (ok results, (result, w)) = (ok (add_failed results result), w)
  finish_download (grpc_error status, (_, w)) = (grpc_error status, w)
  finish_download (runtime_error, (_, w)) = (runtime_error, w)
  finish_download (stuck, (_, w)) = (stuck, w)

  -- `downloadBlobs` into a result.
  unfoldable pub download_to_result :
      ℕ → List Digest → B.World → Attempt DownloadBlobsResult × B.World
  unfolding download_blobs write_result finish_download
  download_to_result max_total digests w =
      finish_download (download_blobs write_result max_total digests false ([], w))
