-- ===== src/Client/Requests.antt =====
-- `Client::makeRetrier` and `Client::issueRequestAndThrowOnErrors`, on which each request of the client
-- rests, and the way in which its methods end.
use buildbox_common.Prelude.{
  ℕ, zero, suc, Bool, not, ◌||◌, [], none, some, if◌then◌else◌, ◌≡◌, refl, subst, ◌∙◌, arith, true,
  false, Bool-cases, inl, inr,
}
use buildbox_common.Retrier.{
  Status, Service, GrpcRetrier, Outcome, is_ok, make, issue_request, status_is_retryable,
}
use buildbox_common.Retrier.Bounds.{
  should_retry, step_final, nth_status, world_after, issue_request-Answered,
}

-- A value, a `GrpcError` with its status, another `std::runtime_error`, or a loop out of fuel, which
-- does not happen.
pub data Attempt {ℓ} (A : Type ℓ) : Type ℓ where
  ok : A → Attempt A
  grpc_error : Status → Attempt A
  runtime_error : Attempt A
  stuck : Attempt A

pub record Settings : Type 0 where
  pub grpc_retry_limit : ℕ
  pub grpc_retry_delay : ℕ

-- `makeRetrier`
abbrev pub make_retrier : Settings → GrpcRetrier
make_retrier c = make c.grpc_retry_limit c.grpc_retry_delay []

-- `issueRequestAndThrowOnErrors`: a status that is not OK is thrown as a `GrpcError`.
unfoldable pub issue_request_and_throw_on_errors :
    (V : Service) → Settings → V.World → Attempt (Unit {0}) × V.World
issue_request_and_throw_on_errors V c w = elim (issue_request V (make_retrier c) w) [
  | none ↦ (stuck, w)
  | some o ↦
      if not o.result || not (is_ok o.retrier.status)
      then (grpc_error o.retrier.status, o.world)
      else (ok tt, o.world)
]

-- A call that the server answers with OK is made once.
pub issue_ok :
    (V : Service) (c : Settings) (w : V.World)
    → is_ok (V.invocation w).0 ≡ true
    → issue_request_and_throw_on_errors V c w ≡ (ok tt, (V.invocation w).1)
unfolding issue_request_and_throw_on_errors issue_request make status_is_retryable
issue_ok V c w h =
    let final : should_retry (make_retrier c).retryable_status_codes (V.invocation w).0 ≡ false =
      unfold should_retry in ground arith in
    rw
      (
        step_final V c.grpc_retry_limit (record (make_retrier c) { retry_attempts = 0 }) w [] final,
        issue_request_and_throw_on_errors,
      )
      (ground arith)

abbrev pub is_stuck {ℓ} : {A : Type ℓ} → Attempt A → Bool
is_stuck (ok a) = false
is_stuck (grpc_error status) = false
is_stuck runtime_error = false
is_stuck stuck = true

abbrev pub is_ok_attempt {ℓ} : {A : Type ℓ} → Attempt A → Bool
is_ok_attempt (ok a) = true
is_ok_attempt (grpc_error status) = false
is_ok_attempt runtime_error = false
is_ok_attempt stuck = false

module _ (V : Service) where
  status-world_after :
      (k : ℕ) (w : V.World)
      → (nth_status V k w ≡ (V.invocation (world_after V k w)).0)
        × (world_after V (suc k) w ≡ (V.invocation (world_after V k w)).1)
  unfolding nth_status world_after
  status-world_after zero w = (refl, refl)
  status-world_after (suc k) w = status-world_after k (V.invocation w).1

  ended : Outcome V → Attempt (Unit {0}) × V.World
  ended o =
      if not o.result || not (is_ok o.retrier.status)
      then (grpc_error o.retrier.status, o.world)
      else (ok tt, o.world)

  issue-ended :
      (c : Settings) (w : V.World) (o : Outcome V)
      → issue_request V (make_retrier c) w ≡ some o
      → ended o ≡ issue_request_and_throw_on_errors V c w
  unfolding issue_request_and_throw_on_errors ended
  issue-ended c w o e = rw (e, issue_request_and_throw_on_errors) refl

  -- The request ended, and if it ended well, a call that was answered with OK left its world.
  abbrev pub Ended : Attempt (Unit {0}) × V.World → Type 0
  Ended r =
      (is_stuck r.0 ≡ false)
      × ((is_ok_attempt r.0 ≡ true)
          → (v : V.World) × (is_ok (V.invocation v).0 ≡ true) × (r.1 ≡ (V.invocation v).1))

  Ended-ended :
      (o : Outcome V) (v : V.World)
      → o.retrier.status ≡ (V.invocation v).0
      → o.world ≡ (V.invocation v).1
      → Ended (ended o)
  unfolding ended
  Ended-ended o v e f = elim (Bool-cases (not o.result || not (is_ok o.retrier.status))) [
    | inl bad ↦ rw bad (refl, λ h. absurd (ground arith))
    | inr good ↦ rw good (refl, λ h. (v, rw⁻¹ e (ground arith), f))
  ]

  pub issue-Ended : (c : Settings) (w : V.World) → Ended (issue_request_and_throw_on_errors V c w)
  issue-Ended c w =
      let (o, e, bound, a) = issue_request-Answered V (make_retrier c) w in
      let k = o.retrier.retry_attempts in
      let last = status-world_after k w in
      subst Ended (issue-ended c w o e)
        (Ended-ended o (world_after V k w) (a.status ∙ last.0) (a.world ∙ last.1))
