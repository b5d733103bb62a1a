-- ===== src/Client/Stream.antt =====
-- `Client::upload` of a text: its chunks, in one call of the ByteStream API that may be repeated.
-- `bytestreamChunkSizeBytes()` is the argument `chunk`.
pub mod Chunks
pub mod File
mod Tests
use buildbox_common.Prelude.{
  ℕ, zero, suc, ◌+◌, Bool, true, false, not, List, [], ◌∷◌, none, some, Option, ◌==◌, if◌then◌else◌,
  Text, text_eq, take, drop, length,
}
use buildbox_common.Digest.{Digest}
use buildbox_common.Retrier.{Status, Service, is_ok}
use buildbox_common.LogStream.{WriteRequest, ByteStream}
use buildbox_common.Client.Requests.{
  Attempt, ok, grpc_error, runtime_error, stuck, Settings, issue_request_and_throw_on_errors,
}
use buildbox_common.Client.Download.{Names, make_resource_name}

module _ (B : ByteStream) (chunk : ℕ) where
  abbrev pub request_of : Text → ℕ → Text → WriteRequest
  request_of name offset rest = record {
    resource_name = name;
    write_offset = offset;
    data_bytes = take chunk rest;
    finish_write = text_eq (drop chunk rest) [];
  }

  -- What follows a chunk: the loop ends when it was the last one, or was refused.
  abbrev pub after_chunk : Bool → (B.World → B.World) → Bool × B.World → B.World
  after_chunk last go_on (false, w) = w
  after_chunk true go_on (true, w) = w
  after_chunk false go_on (true, w) = go_on w

  -- The loop; `rest` is the data from `offset` on.
  unfoldable pub send_chunks : ℕ → Text → ℕ → Text → B.World → B.World
  unfolding text_eq
  send_chunks zero name offset rest w = w
  send_chunks (suc fuel) name offset rest w =
      after_chunk (text_eq (drop chunk rest) [])
        (send_chunks fuel name (offset + length (take chunk rest)) (drop chunk rest))
        (B.write_request (request_of name offset rest) w)

  -- The lambda. Its state says whether an exception left it, which happens only where the status is OK.
  abbrev pub upload_service : Text → Text → Digest → Service
  upload_service name bytes digest = record {
    World = Bool × B.World;
    invocation = λ s.
        let sent = send_chunks (suc (length bytes)) name 0 bytes (B.open_writer s.1) in
        let (status, committed_size, w) = B.finish (B.writes_done sent) in
        (status, (if is_ok status then not (committed_size == digest.size_bytes) else s.0, w));
    retry_info = B.retry_info;
  }

  unfoldable pub after_upload_call :
      Attempt (Unit {0}) × (Bool × B.World) → Attempt (Unit {0}) × B.World
  after_upload_call (ok _, (true, w)) = (runtime_error, w)
  after_upload_call (ok _, (false, w)) = (ok tt, w)
  after_upload_call (grpc_error status, (_, w)) = (grpc_error status, w)
  after_upload_call (runtime_error, (_, w)) = (runtime_error, w)
  after_upload_call (stuck, (_, w)) = (stuck, w)

  -- `upload`; `none` is the `std::logic_error` of data that has not the digest's size.
  unfoldable pub upload :
      Settings → Names → Text → Digest → B.World → Option (Attempt (Unit {0}) × B.World)
  unfolding make_resource_name send_chunks after_upload_call
  upload c n bytes digest w =
      if length bytes == digest.size_bytes
      then some (
          after_upload_call (
            issue_request_and_throw_on_errors
              (upload_service (make_resource_name n digest true) bytes digest) c (false, w)))
      else none
