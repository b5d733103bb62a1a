-- ===== src/Retrier/Delays.antt =====
-- The waits between the calls of `issueRequest`.
use mathlib.Core.Option.{some-injective}
use buildbox_common.Prelude.{
  ℕ, zero, suc, ◌+◌, ◌<◌, ◌≡◌, refl, sym, ap, ◌∙◌, inl, inr, Bool, true, false, List, [], ◌∷◌, ◌++◌,
  append_assoc, append-nil, Option, some, arith, Bool-cases,
}
use buildbox_common.Prelude.Int.{ℤ, pos}
use buildbox_common.Retrier.{
  Service, Status, GrpcRetrier, Outcome, Sleep, is_nil, read_retry_info, override_delay, issue_loop,
  issue_request,
}
use buildbox_common.Retrier.Bounds.{
  should_retry, informed, informed_fields, next_try, next_sleep, step_final, step_limit, step_next,
}

-- `k` waits on one base delay, for the attempts from `a` on.
abbrev pub waits : ℕ → ℕ → ℕ → List Sleep
waits base a zero = []
waits base a (suc k) = (record { base = base; attempts = a }) ∷ waits base (a + 1) k

-- The server's delay in milliseconds, where it is positive; else the delay that was set.
abbrev pub server_delay : ℕ → Option ℤ → ℕ
server_delay base (some (pos (suc n))) = suc n
server_delay base _ = base

module _ (S : Service) where
  -- The base delay that the first answer leads to.
  abbrev pub first_base : GrpcRetrier → Status → ℕ
  first_base r s = elim s.error_details [
    | [] ↦ r.retry_delay_base
    | c ∷ cs ↦ server_delay r.retry_delay_base (S.retry_info (c ∷ cs))
  ]

  -- What is known of a run that goes on after `r`.
  abbrev Waited : GrpcRetrier → List Sleep → ℕ → Outcome S → Type 0
  Waited r sleeps base o =
      (k : ℕ) × (o.retrier.retry_attempts ≡ r.retry_attempts + k)
      × (o.sleeps ≡ sleeps ++ waits base r.retry_attempts k)

  informed_later :
      (r : GrpcRetrier) (w : S.World)
      → 0 < r.retry_attempts
      → (informed S r w).retry_delay_base ≡ r.retry_delay_base
  unfolding read_retry_info
  informed_later r w h = ground arith

  informed_first :
      (r : GrpcRetrier) (w : S.World)
      → r.retry_attempts ≡ 0
      → (informed S r w).retry_delay_base ≡ first_base r (S.invocation w).0
  unfolding read_retry_info override_delay is_nil
  informed_first r w h = ground arith

  Waited-done :
      (r r' : GrpcRetrier) (w : S.World) (sleeps : List Sleep) (base : ℕ) (b : Bool) (o : Outcome S)
      → r'.retry_attempts ≡ r.retry_attempts
      → some (record { result = b; retrier = r'; world = w; sleeps = sleeps }) ≡ some o
      → Waited r sleeps base o
  Waited-done r r' w sleeps base b o same e =
      let p = some-injective _ _ e in
      (
        0,
        ap (λ (q : Outcome S). q.retrier.retry_attempts) (sym p) ∙ omega (arith, same),
        ap (λ (q : Outcome S). q.sleeps) (sym p) ∙ sym (append-nil sleeps),
      )

  Waited-next :
      (r : GrpcRetrier) (w : S.World) (sleeps : List Sleep) (base : ℕ) (o : Outcome S)
      → (informed S r w).retry_delay_base ≡ base
      → Waited (next_try S r w) (sleeps ++ next_sleep S r w ∷ []) base o
      → Waited r sleeps base o
  Waited-next r w sleeps base o e (k, count, trace) =
      let same =
        (informed_fields S (record r { status = (S.invocation w).0 }) (S.invocation w).0).2 in
      (
        suc k,
        omega (arith, same),
        trace ∙ append_assoc sleeps (next_sleep S r w ∷ []) _ ∙ rw (e, same),
      )

  loop_waits :
      (fuel base : ℕ) (r : GrpcRetrier) (w : S.World) (sleeps : List Sleep) (o : Outcome S)
      → r.retry_attempts + fuel ≡ r.retry_limit
      → (informed S r w).retry_delay_base ≡ base
      → issue_loop S (suc fuel) r w sleeps ≡ some o
      → Waited r sleeps base o
  loop_waits zero base r w sleeps o e b run =
      let s = (S.invocation w).0 in
      elim (Bool-cases (should_retry r.retryable_status_codes s)) [
        | inr done ↦
            Waited-done r (record r { status = s }) _ sleeps base true o refl
              (sym (step_final S zero r w sleeps done) ∙ run)
        | inl again ↦
            Waited-done r (informed S r w) _ sleeps base false o
              (informed_fields S (record r { status = s }) s).2
              (sym (step_limit S zero r w sleeps again (omega arith)) ∙ run)
      ]
  loop_waits (suc fuel) base r w sleeps o e b run =
      let s = (S.invocation w).0 in
      let fields = informed_fields S (record r { status = s }) s in
      elim (Bool-cases (should_retry r.retryable_status_codes s)) [
        | inr done ↦
            Waited-done r (record r { status = s }) _ sleeps base true o refl
              (sym (step_final S (suc fuel) r w sleeps done) ∙ run)
        | inl again ↦ Waited-next r w sleeps base o b (
            loop_waits fuel base (next_try S r w) (S.invocation w).1
              (sleeps ++ next_sleep S r w ∷ []) o (omega (arith, fields.0, fields.2))
              (informed_later (next_try S r w) (S.invocation w).1 (omega arith) ∙ b)
              (sym (step_next S (suc fuel) r w sleeps again (omega arith)) ∙ run))
      ]

  -- `issueRequest` waits once before each retry, for the same base delay and the attempts 0, 1, 2, …
  -- in turn. The base delay is the one that the server sends with its first answer, if it is positive,
  -- and else the one that was set; what a later answer says is not read.
  pub issue_request-waits :
      (r : GrpcRetrier) (w : S.World) (o : Outcome S)
      → issue_request S r w ≡ some o
      → o.sleeps ≡ waits (first_base r (S.invocation w).0) 0 o.retrier.retry_attempts
  unfolding issue_request
  issue_request-waits r w o run =
      let (k, count, trace) =
        loop_waits r.retry_limit _ (record r { retry_attempts = 0 }) w [] o (omega arith)
          (informed_first (record r { retry_attempts = 0 }) w refl) run in
      let same : o.retrier.retry_attempts ≡ k = omega arith in
      trace ∙ ap (waits (first_base r (S.invocation w).0) 0) (sym same)
