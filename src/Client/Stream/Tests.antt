-- ===== src/Client/Stream/Tests.antt =====
-- A server that keeps the requests it gets, and five bytes in chunks of two.
use buildbox_common.Prelude.{
  ℕ, ◌≡◌, refl, ◌≤◌, true, false, List, [], ◌∷◌, ◌++◌, none, arith, Text, codes, length, All, ◌+◌,
  ◌==◌, if◌then◌else◌, take, drop, some,
}
use buildbox_common.Retrier.{Status, ok_code, unavailable}
use buildbox_common.LogStream.{WriteRequest, ByteStream}
use buildbox_common.Client.Requests.{runtime_error}
use buildbox_common.Client.Stream.{send_chunks, upload}
use buildbox_common.Client.Stream.File.{OpenFile, upload_file}
use buildbox_common.Client.Stream.Chunks.{contents, write_all, Chunked, send_chunks-Chunked}

abbrev fine : Status
fine = record { error_code = ok_code; error_details = [] }

abbrev log : ByteStream
log = record {
  World = List WriteRequest;
  query_write_status = λ name w. (fine, w);
  open_writer = λ w. w;
  write_request = λ r w. (true, w ++ r ∷ []);
  writes_done = λ w. w;
  finish = λ w. (fine, length (contents w), w);
  retry_info = λ details. none;
}

abbrev five : Text
five = codes "abcde"

abbrev sent : List WriteRequest
sent =
    (record {
      resource_name = codes "r";
      write_offset = 0;
      data_bytes = codes "ab";
      finish_write = false;
    })
    ∷ (record {
      resource_name = codes "r";
      write_offset = 2;
      data_bytes = codes "cd";
      finish_write = false;
    })
    ∷ (record {
      resource_name = codes "r";
      write_offset = 4;
      data_bytes = codes "e";
      finish_write = true;
    })
    ∷ []

sent_run : send_chunks log 2 6 (codes "r") 0 five [] ≡ sent
unfolding send_chunks
sent_run = refl

-- The data has another size than the digest says.
upload_other_size :
    upload log 2
      (record { grpc_retry_limit = 0; grpc_retry_delay = 0 })
      (record { instance_name = []; uuid = [] })
      five
      (record { hash_other = []; size_bytes = 4 })
      []
    ≡ none
unfolding upload
upload_other_size = refl

send_chunks-Chunked_example :
    (rs : List WriteRequest) × ((w : List WriteRequest)
      → send_chunks log 2 6 (codes "r") 0 five w ≡ write_all log rs w)
    × (contents rs ≡ five)
    × All (λ (r : WriteRequest). length r.data_bytes ≤ 2) rs
    × Chunked 0 rs
send_chunks-Chunked_example =
    send_chunks-Chunked log 2 6 (codes "r") 0 five (omega arith) (omega arith)

-- A server that is unavailable at first, with a file of two bytes: its world holds the calls of
-- `finish`, the position in the file and the requests.
abbrev busy : ByteStream
busy = record {
  World = ℕ × ℕ × List WriteRequest;
  query_write_status = λ name w. (fine, w);
  open_writer = λ w. w;
  write_request = λ r w. (true, (w.0, w.1, w.2 ++ r ∷ []));
  writes_done = λ w. w;
  finish = λ w. (
    record { error_code = if w.0 == 0 then unavailable else ok_code; error_details = [] },
    2,
    (w.0 + 1, w.1, w.2),
  );
  retry_info = λ details. none;
}

abbrev two_bytes : OpenFile busy 2
two_bytes = record {
  rewind = λ w. (w.0, 0, w.2);
  read_file = λ count w. (some (take count (drop w.1 (codes "ab"))), (w.0, w.1 + count, w.2));
}

-- The second try starts at the end of the file, and the upload fails for it.
upload_file_retry :
    upload_file busy 2 two_bytes
      (record { grpc_retry_limit = 3; grpc_retry_delay = 0 })
      (record { instance_name = []; uuid = [] })
      (record { hash_other = []; size_bytes = 2 })
      (0, 0, [])
    ≡ (
      runtime_error,
      (
        1,
        4,
        (record {
          resource_name = codes "uploads//blobs//2";
          write_offset = 0;
          data_bytes = codes "ab";
          finish_write = true;
        })
            ∷ [],
      ),
    )
unfolding upload_file buildbox_common.Client.Requests.issue_request_and_throw_on_errors
    buildbox_common.Retrier.issue_request buildbox_common.Retrier.status_is_retryable
    buildbox_common.Retrier.make buildbox_common.Retrier.read_retry_info
upload_file_retry = refl
