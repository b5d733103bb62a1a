-- ===== src/LogStream/Commit.antt =====
-- What a `commit()` that returns true has checked.
use buildbox_common.Prelude.{ℕ, zero, suc, ◌≡◌, sym, subst, ◌∙◌, Bool, true, ◌&&◌, [], arith}
use buildbox_common.Retrier.{Service, GrpcRetrier, Outcome, is_ok}
use buildbox_common.Retrier.Bounds.{nth_status, world_after, Answered, issue_request-Answered}
use buildbox_common.LogStream.{
  ByteStream, WriteRequest, LogStreamWriter, Stream, Reply, returned, close_stream, commit_lambda,
  request_succeeds, service, commit, retrier,
}

-- Whatever holds of the world after each call that is answered with OK holds after the last one.
nth_ok :
    (V : Service) (P : V.World → Type 0)
    → ((w : V.World) → is_ok (V.invocation w).0 ≡ true → P (V.invocation w).1)
    → (k : ℕ) (w : V.World) → is_ok (nth_status V k w) ≡ true
    → P (world_after V (suc k) w)
unfolding nth_status world_after
nth_ok V P each zero w h = each w h
nth_ok V P each (suc k) w h = nth_ok V P each k (V.invocation w).1 h

-- A request that succeeds ends after a call that was answered with OK.
pub succeeds_ok :
    (V : Service) (P : V.World → Type 0)
    → ((w : V.World) → is_ok (V.invocation w).0 ≡ true → P (V.invocation w).1)
    → (r : GrpcRetrier) (w w' : V.World) → request_succeeds V r w ≡ returned (true, w')
    → P w'
unfolding request_succeeds
succeeds_ok V P each r w w' h =
    let (o, run, bound, a) = issue_request-Answered V r w in
    finish o a (rw (run, request_succeeds) at h)
  where
    finish :
        (o : Outcome V)
        → Answered V r.retryable_status_codes r.retry_limit o.retrier.retry_attempts w o
        → ◌≡◌ {A = Reply (Bool × V.World)}
            (returned (o.result && is_ok o.retrier.status, o.world))
            (returned (true, w'))
        → P w'
    finish o a e =
        let parts : (is_ok o.retrier.status ≡ true) × (o.world ≡ w') = ground arith in
        subst P (sym a.world ∙ parts.1)
          (nth_ok V P each o.retrier.retry_attempts w (rw (← a.status) parts.0))

module _ (B : ByteStream) where
  close_ok :
      (offset : ℕ) (s : Stream B)
      → is_ok (close_stream B offset s).0 ≡ true
      → (close_stream B offset s).1.committed_size ≡ offset
  unfolding close_stream
  close_ok offset s h = ground arith

  commit_lambda_ok :
      (request : WriteRequest) (s : Stream B)
      → is_ok (commit_lambda B request s).0 ≡ true
      → (commit_lambda B request s).1.committed_size ≡ request.write_offset
  unfolding commit_lambda
  commit_lambda_ok request s h = ground (arith, close_ok request.write_offset)

  -- When `commit()` returns true the size that the server reports as committed is the offset, the
  -- writer is committed, and its offset is unchanged.
  pub commit_ok :
      (l l' : LogStreamWriter) (s s' : Stream B)
      → commit B l s ≡ returned (true, l', s')
      → (s'.committed_size ≡ l.write_offset)
        × (l'.write_committed ≡ true)
        × (l'.write_offset ≡ l.write_offset)
  unfolding commit
  commit_ok l l' s s' h =
      let request : WriteRequest = record {
        resource_name = l.resource_name;
        write_offset = l.write_offset;
        data_bytes = [];
        finish_write = true;
      } in
      let checked =
        succeeds_ok (service B (commit_lambda B request)) (λ t. t.committed_size ≡ l.write_offset)
          (commit_lambda_ok request) (retrier l) s s' in
      ground (arith, checked)
