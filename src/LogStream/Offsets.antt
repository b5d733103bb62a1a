-- ===== src/LogStream/Offsets.antt =====
-- What a `write()` sends and how the offset moves, over any sequence of calls.
use buildbox_common.Prelude.{
  ℕ, ◌+◌, ◌≡◌, refl, Bool, true, false, List, [], ◌∷◌, arith, if◌then◌else◌, Text, length,
}
use buildbox_common.Retrier.{Status, Service, GrpcRetrier, Outcome, is_ok, issue_request, make}
use buildbox_common.Retrier.Bounds.{should_retry, step_final}
use buildbox_common.LogStream.{
  ByteStream, WriteRequest, LogStreamWriter, Stream, returned, threw, stuck, write_lambda,
  request_succeeds, service, write, write_data, commit, Result,
}

-- An answer that is not to be retried ends the request after one call.
pub succeeds_once :
    (V : Service) (limit delay : ℕ) (w : V.World)
    → should_retry (make limit delay []).retryable_status_codes (V.invocation w).0 ≡ false
    → request_succeeds V (make limit delay []) w
      ≡ returned (is_ok (V.invocation w).0, (V.invocation w).1)
unfolding request_succeeds issue_request buildbox_common.Retrier.status_is_retryable make
succeeds_once V limit delay w h = rw (
  step_final V limit (record (make limit delay []) { retry_attempts = 0 }) w [] h,
  request_succeeds,
)

module _ (B : ByteStream) where
  abbrev pub data_request : LogStreamWriter → Text → WriteRequest
  data_request l bytes = record {
    resource_name = l.resource_name;
    write_offset = l.write_offset;
    data_bytes = bytes;
    finish_write = false;
  }

  write_lambda_final :
      (request : WriteRequest) (s : Stream B) (limit delay : ℕ)
      → should_retry (make limit delay []).retryable_status_codes (write_lambda B request s).0
        ≡ false
  unfolding write_lambda should_retry make
  write_lambda_final request s limit delay = ground arith

  -- A `write()` on a stream that is ready sends its data once, at the current offset, whatever the
  -- server answers; the offset moves past the data if the stream takes it.
  pub write_data_lem :
      (l : LogStreamWriter) (bytes : Text) (s : Stream B)
      → l.write_committed ≡ false
      → l.resource_ready ≡ true
      → let sent = write_lambda B (data_request l bytes) s in
        write B l bytes s ≡ (
          if is_ok sent.0
          then returned (true, record l { write_offset = l.write_offset + length bytes }, sent.1)
          else returned (false, l, sent.1))
  unfolding write write_data
  write_data_lem l bytes s open_ ready = ground (
    arith,
    succeeds_once (service B (write_lambda B (data_request l bytes))) l.grpc_retry_limit
        l.grpc_retry_delay s
        (write_lambda_final (data_request l bytes) s l.grpc_retry_limit l.grpc_retry_delay),
  )

  -- How a call moves the fields of the object, whatever it returns.
  pub write_moves :
      (l l' : LogStreamWriter) (bytes : Text) (s s' : Stream B) (b : Bool)
      → write B l bytes s ≡ returned (b, l', s')
      → (l'.write_offset ≡ (if b then l.write_offset + length bytes else l.write_offset))
        × (l'.write_committed ≡ l.write_committed)
        × (l.write_committed ≡ false)
        × (l'.resource_name ≡ l.resource_name)
  unfolding write write_data
  write_moves l l' bytes s s' b h = ground arith

  pub commit_moves :
      (l l' : LogStreamWriter) (s s' : Stream B) (b : Bool)
      → commit B l s ≡ returned (b, l', s')
      → (l'.write_offset ≡ l.write_offset)
        × (l'.write_committed ≡ b)
        × (l.write_committed ≡ false)
        × (l'.resource_name ≡ l.resource_name)
  unfolding commit
  commit_moves l l' s s' b h = ground arith

  -- A client's calls in turn; one that throws leaves the object as it was.
  pub data Call : Type 0 where
    writes : Text → Call
    commits : Call

  unfoldable pub call : Call → LogStreamWriter → Stream B → Result B
  call (writes bytes) l s = write B l bytes s
  call commits l s = commit B l s

  -- The bytes that a reply acknowledges.
  abbrev acknowledged : Call → Result B → ℕ
  acknowledged (writes bytes) (returned (true, _, _)) = length bytes
  acknowledged _ _ = 0

  abbrev after_object : LogStreamWriter → Result B → LogStreamWriter
  after_object l (returned (_, l', _)) = l'
  after_object l _ = l

  abbrev after_stream : Stream B → Result B → Stream B
  after_stream s (returned (_, _, s')) = s'
  after_stream s _ = s

  unfoldable pub run_calls : List Call → LogStreamWriter → Stream B → LogStreamWriter × Stream B
  run_calls [] l s = (l, s)
  run_calls (c ∷ rest) l s =
      let r = call c l s in run_calls rest (after_object l r) (after_stream s r)

  -- The lengths of the data that the writes among the calls have returned true for.
  pub acknowledged_bytes : List Call → LogStreamWriter → Stream B → ℕ
  acknowledged_bytes [] l s = 0
  acknowledged_bytes (c ∷ rest) l s =
      let r = call c l s in
      acknowledged c r + acknowledged_bytes rest (after_object l r) (after_stream s r)

  call_offset :
      (c : Call) (l : LogStreamWriter) (s : Stream B)
      → (after_object l (call c l s)).write_offset ≡ l.write_offset + acknowledged c (call c l s)
  unfolding call
  call_offset (writes bytes) l s = go (write B l bytes s) refl
    where
      go :
          (r : Result B)
          → write B l bytes s ≡ r
          → (after_object l r).write_offset ≡ l.write_offset + acknowledged (writes bytes) r
      go threw e = omega arith
      go stuck e = omega arith
      go (returned (b, l', s')) e = ground (arith, write_moves l l' bytes s s' b e)
  call_offset commits l s = go (commit B l s) refl
    where
      go :
          (r : Result B)
          → commit B l s ≡ r
          → (after_object l r).write_offset ≡ l.write_offset + acknowledged commits r
      go threw e = omega arith
      go stuck e = omega arith
      go (returned (b, l', s')) e = ground (arith, commit_moves l l' s s' b e)

  -- After any calls the offset is the number of bytes that writes have acknowledged, added to the
  -- offset at the start.
  pub run_calls_offset :
      (calls : List Call) (l : LogStreamWriter) (s : Stream B)
      → (run_calls calls l s).0.write_offset ≡ l.write_offset + acknowledged_bytes calls l s
  unfolding run_calls acknowledged_bytes
  run_calls_offset [] l s = omega arith
  run_calls_offset (c ∷ rest) l s =
      let r = call c l s in
      omega (arith, call_offset c l s, run_calls_offset rest (after_object l r) (after_stream s r))

  -- What the calls return, in turn.
  unfoldable pub replies : List Call → LogStreamWriter → Stream B → List (Result B)
  replies [] l s = []
  replies (c ∷ rest) l s =
      let r = call c l s in r ∷ replies rest (after_object l r) (after_stream s r)

  abbrev pub all_throw : List Call → List (Result B)
  all_throw [] = []
  all_throw (c ∷ rest) = threw ∷ all_throw rest
