-- ===== src/LogStream.antt =====
-- `LogStreamWriter` (buildbox-common/buildboxcommon/buildboxcommon_logstreamwriter.h and .cpp).
-- The gRPC stub is the parameter `ByteStream`, over a state of the world that each call may change.
-- Offsets are `size_t` in the source and do not wrap here. Log messages are left out.
pub mod Commit
pub mod Offsets
mod Tests
use buildbox_common.Prelude.{
  ℕ, ◌+◌, Bool, true, false, not, ◌&&◌, List, [], ◌∷◌, Option, none, some, ◌==◌, if◌then◌else◌,
  Text, length,
}
use buildbox_common.Prelude.Int.{ℤ}
use buildbox_common.Retrier.{
  Status, Service, GrpcRetrier, Outcome, is_ok, ok_code, internal, data_loss, make, issue_request,
}

pub record WriteRequest : Type 0 where
  pub resource_name : Text
  pub write_offset : ℕ
  pub data_bytes : Text
  pub finish_write : Bool

-- `Finish()` gives a status, and fills in `committed_size` of the response.
pub record ByteStream : Type 1 where
  pub World : Type 0
  pub query_write_status : Text → World → Status × World
  pub open_writer : World → World
  pub write_request : WriteRequest → World → Bool × World
  pub writes_done : World → World
  pub finish : World → Status × ℕ × World
  pub retry_info : Text → Option ℤ

pub record LogStreamWriter : Type 0 where
  pub resource_name : Text
  pub grpc_retry_limit : ℕ
  pub grpc_retry_delay : ℕ
  pub write_offset : ℕ
  pub write_committed : Bool
  pub resource_ready : Bool

-- The constructor.
unfoldable pub make_writer : Text → ℕ → ℕ → LogStreamWriter
make_writer name limit delay = record {
  resource_name = name;
  grpc_retry_limit = limit;
  grpc_retry_delay = delay;
  write_offset = 0;
  write_committed = false;
  resource_ready = false;
}

-- How a call ends: a `std::runtime_error`, a loop that ran out of fuel (which does not happen), or a
-- value.
pub data Reply {ℓ} (A : Type ℓ) : Type ℓ where
  threw : Reply A
  stuck : Reply A
  returned : A → Reply A

-- The retrier that each method makes, which retries on `UNAVAILABLE` only.
abbrev pub retrier : LogStreamWriter → GrpcRetrier
retrier l = make l.grpc_retry_limit l.grpc_retry_delay []

-- `retrier.issueRequest() && retrier.status().ok()`
pub request_succeeds : (V : Service) → GrpcRetrier → V.World → Reply (Bool × V.World)
request_succeeds V r w = elim (issue_request V r w) [
  | none ↦ stuck
  | some o ↦ returned (o.result && is_ok o.retrier.status, o.world)
]

module _ (B : ByteStream) where
  -- The stream of the object, which its lambdas share: whether `d_bytestreamWriter` is set, the
  -- committed size in `d_writeResponse`, and the world.
  pub record Stream : Type 0 where
    pub writer_open : Bool
    pub committed_size : ℕ
    pub world : B.World

  -- `bytestreamWriter()` opens the stream at its first use.
  bytestream_writer : Stream → Stream
  bytestream_writer s =
      if s.writer_open then s else record s { writer_open = true; world = B.open_writer s.world }

  abbrev status_of : ℕ → Status
  status_of code = record { error_code = code; error_details = [] }

  -- `writeLambda`
  pub write_lambda : WriteRequest → Stream → Status × Stream
  unfolding bytestream_writer
  write_lambda request s =
      let opened = bytestream_writer s in
      let (accepted, w) = B.write_request request opened.world in
      (if accepted then status_of ok_code else status_of internal, record opened { world = w })

  -- What `commitWriteLambda` does once its request is written.
  pub close_stream : ℕ → Stream → Status × Stream
  close_stream offset s =
      let (status, committed, w) = B.finish (B.writes_done s.world) in
      let closed = record s { committed_size = committed; world = w } in
      if is_ok status && not (committed == offset)
      then (status_of data_loss, closed)
      else (status, closed)

  -- `commitWriteLambda`
  pub commit_lambda : WriteRequest → Stream → Status × Stream
  unfolding bytestream_writer close_stream
  commit_lambda request s =
      let opened = bytestream_writer s in
      let (accepted, w) = B.write_request request opened.world in
      let written = record opened { world = w } in
      if accepted then close_stream request.write_offset written else (status_of internal, written)

  abbrev pub query_service : Text → Service
  query_service name = record {
    World = Stream;
    invocation = λ s.
        let (status, w) = B.query_write_status name s.world in (status, record s { world = w });
    retry_info = B.retry_info;
  }

  abbrev pub service : (Stream → Status × Stream) → Service
  service lambda = record { World = Stream; invocation = lambda; retry_info = B.retry_info }

  -- `queryStreamWriteStatus`
  pub query_stream_write_status : LogStreamWriter → Stream → Reply (Bool × Stream)
  unfolding request_succeeds
  query_stream_write_status l s = request_succeeds (query_service l.resource_name) (retrier l) s

  abbrev pub Result : Type 0
  Result = Reply (Bool × LogStreamWriter × Stream)

  pub write_data : LogStreamWriter → Text → Stream → Result
  unfolding request_succeeds write_lambda
  write_data l bytes s =
      let request : WriteRequest = record {
        resource_name = l.resource_name;
        write_offset = l.write_offset;
        data_bytes = bytes;
        finish_write = false;
      } in
      elim (request_succeeds (service (write_lambda request)) (retrier l) s) [
        | threw ↦ threw
        | stuck ↦ stuck
        | returned (true, s') ↦
            returned (true, record l { write_offset = l.write_offset + length bytes }, s')
        | returned (false, s') ↦ returned (false, l, s')
      ]

  -- `write`
  unfoldable pub write : LogStreamWriter → Text → Stream → Result
  unfolding query_stream_write_status write_data
  write l bytes s =
      if l.write_committed
      then threw
      else if l.resource_ready
      then write_data l bytes s
      else elim (query_stream_write_status l s) [
        | threw ↦ threw
        | stuck ↦ stuck
        | returned (true, s') ↦ write_data (record l { resource_ready = true }) bytes s'
        | returned (false, s') ↦ returned (false, l, s')
      ]

  -- `commit`
  unfoldable pub commit : LogStreamWriter → Stream → Result
  unfolding request_succeeds commit_lambda
  commit l s =
      let request : WriteRequest = record {
        resource_name = l.resource_name;
        write_offset = l.write_offset;
        data_bytes = [];
        finish_write = true;
      } in
      if l.write_committed
      then threw
      else elim (request_succeeds (service (commit_lambda request)) (retrier l) s) [
        | threw ↦ threw
        | stuck ↦ stuck
        | returned (true, s') ↦ returned (true, record l { write_committed = true }, s')
        | returned (false, s') ↦ returned (false, l, s')
      ]
