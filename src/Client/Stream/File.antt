-- ===== src/Client/Stream/File.antt =====
-- `Client::upload` of an open file. `lseek` to the start and `read`, for at most so many bytes, are
-- parameters; `none` is that `read` failed.
use buildbox_common.Prelude.{
  ℕ, zero, suc, ◌+◌, Bool, true, false, not, [], ◌∷◌, none, some, Option, ◌==◌, ltb, if◌then◌else◌,
  Text, length,
}
use buildbox_common.Digest.{Digest}
use buildbox_common.Retrier.{Status, Service, is_ok, ok_code}
use buildbox_common.LogStream.{WriteRequest, ByteStream}
use buildbox_common.Client.Requests.{Attempt, Settings, issue_request_and_throw_on_errors}
use buildbox_common.Client.Download.{Names, make_resource_name}
use buildbox_common.Client.Stream.{after_upload_call}

module _ (B : ByteStream) (chunk : ℕ) where
  pub record OpenFile : Type 0 where
    pub rewind : B.World → B.World
    pub read_file : ℕ → B.World → Option Text × B.World

  module _ (F : OpenFile) where
    abbrev pub file_request : Text → ℕ → Text → Bool → WriteRequest
    file_request name offset bytes last = record {
      resource_name = name;
      write_offset = offset;
      data_bytes = bytes;
      finish_write = last;
    }

    abbrev pub after_file_write :
        Bool → (B.World → Bool × B.World) → Bool × B.World → Bool × B.World
    after_file_write last go_on (false, w) = (false, w)
    after_file_write true go_on (true, w) = (false, w)
    after_file_write false go_on (true, w) = go_on w

    -- What follows a `read`: an end of the file that comes too early is an exception.
    abbrev pub after_read_file :
        Text → ℕ → ℕ → (ℕ → B.World → Bool × B.World) → Option Text × B.World → Bool × B.World
    after_read_file name size offset go_on (none, w) = (true, w)
    after_read_file name size offset go_on (some [], w) =
        if ltb offset size
        then (true, w)
        else after_file_write true (go_on offset)
            (B.write_request (file_request name offset [] true) w)
    after_read_file name size offset go_on (some (b ∷ bs), w) =
        let last = not (ltb (offset + length (b ∷ bs)) size) in
        after_file_write last (go_on (offset + length (b ∷ bs)))
          (B.write_request (file_request name offset (b ∷ bs) last) w)

    -- The loop; each of its rounds but the last advances the offset, which stays below the size. The
    -- result says whether an exception left it.
    unfoldable pub send_file : ℕ → Text → ℕ → ℕ → B.World → Bool × B.World
    send_file zero name size offset w = (false, w)
    send_file (suc fuel) name size offset w =
        after_read_file name size offset (send_file fuel name size) (F.read_file chunk w)

    unfoldable pub after_send : Digest → Bool → Bool × B.World → Status × (Bool × B.World)
    after_send digest before (true, w) =
        (record { error_code = ok_code; error_details = [] }, (true, w))
    after_send digest before (false, w) =
        let (status, committed_size, w') = B.finish (B.writes_done w) in
        (status, (if is_ok status then not (committed_size == digest.size_bytes) else before, w'))

    -- The lambda. Its state says whether an exception left it; the status is then one with which the
    -- loop of the retrier ends.
    abbrev pub file_service : Text → Digest → Service
    file_service name digest = record {
      World = Bool × B.World;
      invocation = λ s.
          after_send digest s.0
            (send_file (suc digest.size_bytes) name digest.size_bytes 0 (B.open_writer s.1));
      retry_info = B.retry_info;
    }

    -- `upload`. The file is rewound before the first call only.
    unfoldable pub upload_file : Settings → Names → Digest → B.World → Attempt (Unit {0}) × B.World
    unfolding make_resource_name send_file after_send after_upload_call
    upload_file c n digest w = after_upload_call B chunk (
        issue_request_and_throw_on_errors (file_service (make_resource_name n digest true) digest) c
          (false, F.rewind w))
