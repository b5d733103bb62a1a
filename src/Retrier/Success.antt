-- ===== src/Retrier/Success.antt =====
-- A server that answers in time is reached.
use buildbox_common.Prelude.{
  ℕ, suc, ◌≤◌, ◌<◌, ◌≡◌, refl, ap, ◌∙◌, inl, inr, true, false, List, some, arith, Bool-cases, ltb,
  ltb→lt,
}
use buildbox_common.Retrier.{Service, GrpcRetrier, Outcome, issue_request}
use buildbox_common.Retrier.Bounds.{
  should_retry, nth_status, world_after, Answered, issue_request-Answered,
}

module _ (S : Service) where
  -- The number of calls is what the answers say.
  attempts_of_Answered :
      (codes : List ℕ) (limit k n : ℕ) (w : S.World) (o : Outcome S)
      → Answered S codes limit k w o
      → o.retrier.retry_attempts ≡ k
      → n ≤ limit
      → ((i : ℕ) → i < n → should_retry codes (nth_status S i w) ≡ true)
      → should_retry codes (nth_status S n w) ≡ false
      → k ≡ n
  attempts_of_Answered codes limit k n w o a count l before final = elim (Bool-cases (ltb k n)) [
    | inl less ↦
        let again : should_retry codes (nth_status S k w) ≡ true = before k (ltb→lt k n less) in
        let gave_up = a.gave_up (rw again at a.result) in absurd (omega (arith, ltb→lt k n less))
    | inr no_less ↦ elim (Bool-cases (ltb n k)) [
      | inl more ↦ absurd (let again = a.earlier n (ltb→lt n k more) in cc)
      | inr no_more ↦ ground arith
    ]
  ]

  -- If some answer among the first `retryLimit + 1` is a success or an error that is not to be
  -- retried, `issueRequest` returns true; where the `n`-th is the first one, counted from 0, it has
  -- then called the server `n + 1` times, no more, and its status is that answer.
  pub issue_request-Success :
      (r : GrpcRetrier) (w : S.World) (n : ℕ)
      → n ≤ r.retry_limit
      → ((i : ℕ) → i < n → should_retry r.retryable_status_codes (nth_status S i w) ≡ true)
      → should_retry r.retryable_status_codes (nth_status S n w) ≡ false
      → (o : Outcome S) × (issue_request S r w ≡ some o)
        × (o.result ≡ true)
        × (o.retrier.retry_attempts ≡ n)
        × (o.retrier.status ≡ nth_status S n w)
        × (o.world ≡ world_after S (suc n) w)
  issue_request-Success r w n limit before final =
      let (o, e, bound, a) = issue_request-Answered S r w in
      let same =
        attempts_of_Answered r.retryable_status_codes r.retry_limit o.retrier.retry_attempts n w o a
          refl limit before final in
      (
        o,
        e,
        a.result ∙ rw (same, final),
        same,
        a.status ∙ ap (λ k. nth_status S k w) same,
        a.world ∙ ap (λ k. world_after S (suc k) w) same,
      )
