-- ===== src/Retrier/Bounds.antt =====
-- How often `issueRequest` calls the server, and what it returns.
use buildbox_common.Prelude.{
  ℕ, zero, suc, ◌+◌, ◌≤◌, ◌<◌, ◌≡◌, refl, sym, ap, ◌∙◌, inl, inr, Bool, true, false, not, ◌&&◌,
  List, [], ◌∷◌, ◌++◌, Option, some, arith, Bool-cases,
}
use buildbox_common.Retrier.{
  Service, Status, GrpcRetrier, Sleep, Outcome, is_ok, status_is_retryable, read_retry_info,
  override_delay, contains, issue_loop, issue_request,
}

-- The status is an error whose code is in the set of those to retry.
unfoldable pub should_retry : List ℕ → Status → Bool
unfolding contains
should_retry codes s = not (is_ok s) && contains codes s.error_code

module _ (S : Service) where
  -- The `i`-th answer of the server, counted from 0, and the world after `i` calls.
  unfoldable pub nth_status : ℕ → S.World → Status
  nth_status zero w = (S.invocation w).0
  nth_status (suc i) w = nth_status i (S.invocation w).1

  unfoldable pub world_after : ℕ → S.World → S.World
  world_after zero w = w
  world_after (suc i) w = world_after i (S.invocation w).1

  -- `k` calls were answered by an error to retry before the last call, whose answer is kept.
  pub record Answered (codes : List ℕ) (limit : ℕ) (k : ℕ) (w : S.World) (o : Outcome S)
      : Type 0 where
    pub world : o.world ≡ world_after (suc k) w
    pub status : o.retrier.status ≡ nth_status k w
    pub earlier : (i : ℕ) → i < k → should_retry codes (nth_status i w) ≡ true
    pub result : o.result ≡ not (should_retry codes (nth_status k w))
    pub gave_up : o.result ≡ false → o.retrier.retry_attempts ≡ limit

  pub informed_fields :
      (r : GrpcRetrier) (s : Status)
      → ((read_retry_info S r s).retry_limit ≡ r.retry_limit)
        × ((read_retry_info S r s).retryable_status_codes ≡ r.retryable_status_codes)
        × ((read_retry_info S r s).retry_attempts ≡ r.retry_attempts)
        × ((read_retry_info S r s).status ≡ r.status)
  unfolding read_retry_info override_delay
  informed_fields r s = ground arith

  abbrev pub informed : GrpcRetrier → S.World → GrpcRetrier
  informed r w = read_retry_info S (record r { status = (S.invocation w).0 }) (S.invocation w).0

  abbrev pub next_try : GrpcRetrier → S.World → GrpcRetrier
  next_try r w = record (informed r w) { retry_attempts = (informed r w).retry_attempts + 1 }

  abbrev pub next_sleep : GrpcRetrier → S.World → Sleep
  next_sleep r w = record {
    base = (informed r w).retry_delay_base;
    attempts = (informed r w).retry_attempts;
  }

  pub step_final :
      (fuel : ℕ) (r : GrpcRetrier) (w : S.World) (sleeps : List Sleep)
      → should_retry r.retryable_status_codes (S.invocation w).0 ≡ false
      → issue_loop S (suc fuel) r w sleeps
        ≡ some (record {
          result = true;
          retrier = record r { status = (S.invocation w).0 };
          world = (S.invocation w).1;
          sleeps = sleeps;
        })
  unfolding issue_loop should_retry status_is_retryable
  step_final fuel r w sleeps h = ground arith

  pub step_limit :
      (fuel : ℕ) (r : GrpcRetrier) (w : S.World) (sleeps : List Sleep)
      → should_retry r.retryable_status_codes (S.invocation w).0 ≡ true
      → r.retry_attempts ≡ r.retry_limit
      → issue_loop S (suc fuel) r w sleeps
        ≡ some (record {
          result = false;
          retrier = informed r w;
          world = (S.invocation w).1;
          sleeps = sleeps;
        })
  unfolding issue_loop should_retry status_is_retryable
  step_limit fuel r w sleeps h e =
      ground (arith, informed_fields (record r { status = (S.invocation w).0 }) (S.invocation w).0)

  pub step_next :
      (fuel : ℕ) (r : GrpcRetrier) (w : S.World) (sleeps : List Sleep)
      → should_retry r.retryable_status_codes (S.invocation w).0 ≡ true
      → r.retry_attempts < r.retry_limit
      → issue_loop S (suc fuel) r w sleeps
        ≡ issue_loop S fuel (next_try r w) (S.invocation w).1 (sleeps ++ next_sleep r w ∷ [])
  unfolding issue_loop should_retry status_is_retryable
  step_next fuel r w sleeps h e =
      ground (arith, informed_fields (record r { status = (S.invocation w).0 }) (S.invocation w).0)

  -- What `loop-Answered` states of a loop that starts in `r` and `w`.
  abbrev pub Runs : GrpcRetrier → S.World → Option (Outcome S) → Type 0
  Runs r w run =
      (o : Outcome S) × (k : ℕ) × (run ≡ some o)
      × (o.retrier.retry_attempts ≡ r.retry_attempts + k)
      × (r.retry_attempts + k ≤ r.retry_limit)
      × Answered r.retryable_status_codes r.retry_limit k w o

  Runs-final :
      (r : GrpcRetrier) (w : S.World) (sleeps : List Sleep)
      → r.retry_attempts ≤ r.retry_limit
      → should_retry r.retryable_status_codes (S.invocation w).0 ≡ false
      → (o : Outcome S) × (o ≡ record {
        result = true;
        retrier = record r { status = (S.invocation w).0 };
        world = (S.invocation w).1;
        sleeps = sleeps;
      })
        × Answered r.retryable_status_codes r.retry_limit 0 w o
  unfolding nth_status world_after
  Runs-final r w sleeps h e = (
    _,
    refl,
    record {
      world = refl;
      status = refl;
      earlier = λ i l. absurd (omega arith);
      result = rw e;
      gave_up = λ f. cc;
    },
  )

  Runs-limit :
      (r : GrpcRetrier) (w : S.World) (sleeps : List Sleep)
      → r.retry_attempts ≡ r.retry_limit
      → should_retry r.retryable_status_codes (S.invocation w).0 ≡ true
      → (o : Outcome S) × (o ≡ record {
        result = false;
        retrier = informed r w;
        world = (S.invocation w).1;
        sleeps = sleeps;
      })
        × (o.retrier.retry_attempts ≡ r.retry_attempts)
        × Answered r.retryable_status_codes r.retry_limit 0 w o
  unfolding nth_status world_after
  Runs-limit r w sleeps h e =
      let fields = informed_fields (record r { status = (S.invocation w).0 }) (S.invocation w).0 in
      (
        _,
        refl,
        fields.2,
        record {
          world = refl;
          status = fields.3;
          earlier = λ i l. absurd (omega arith);
          result = rw e;
          gave_up = λ f. fields.2 ∙ h;
        },
      )

  Answered-next :
      (codes : List ℕ) (limit k : ℕ) (w : S.World) (o : Outcome S)
      → should_retry codes (S.invocation w).0 ≡ true
      → Answered codes limit k (S.invocation w).1 o
      → Answered codes limit (suc k) w o
  unfolding nth_status world_after
  Answered-next codes limit k w o first a = record {
    world = a.world;
    status = a.status;
    earlier = earlier;
    result = a.result;
    gave_up = a.gave_up;
  }
    where
      earlier : (i : ℕ) → i < suc k → should_retry codes (nth_status i w) ≡ true
      earlier zero l = first
      earlier (suc i) l = a.earlier i (omega arith)

  Runs-next :
      (r : GrpcRetrier) (w : S.World) (run : Option (Outcome S))
      → should_retry r.retryable_status_codes (S.invocation w).0 ≡ true
      → Runs (next_try r w) (S.invocation w).1 run
      → Runs r w run
  Runs-next r w run first (o, k, e, count, bound, a) =
      let fields = informed_fields (record r { status = (S.invocation w).0 }) (S.invocation w).0 in
      let a' = rw (fields.0, fields.1) at a in
      (
        o,
        suc k,
        e,
        omega (arith, fields.2),
        omega (arith, fields.0, fields.2),
        Answered-next r.retryable_status_codes r.retry_limit k w o first a',
      )

  loop-Runs :
      (fuel : ℕ) (r : GrpcRetrier) (w : S.World) (sleeps : List Sleep)
      → r.retry_attempts + fuel ≡ r.retry_limit
      → Runs r w (issue_loop S (suc fuel) r w sleeps)
  loop-Runs zero r w sleeps e =
      elim (Bool-cases (should_retry r.retryable_status_codes (S.invocation w).0)) [
        | inl again ↦
            let (o, is, count, a) = Runs-limit r w sleeps (omega arith) again in
            (
              o,
              0,
              step_limit zero r w sleeps again (omega arith) ∙ ap some (sym is),
              omega arith,
              omega arith,
              a,
            )
        | inr done ↦
            let (o, is, a) = Runs-final r w sleeps (omega arith) done in
            (
              o,
              0,
              step_final zero r w sleeps done ∙ ap some (sym is),
              rw is (omega arith),
              omega arith,
              a,
            )
      ]
  loop-Runs (suc fuel) r w sleeps e =
      elim (Bool-cases (should_retry r.retryable_status_codes (S.invocation w).0)) [
        | inl again ↦ rw (step_next (suc fuel) r w sleeps again (omega arith)) (
            Runs-next r w _ again (
              loop-Runs fuel (next_try r w) (S.invocation w).1 (sleeps ++ next_sleep r w ∷ []) (
                omega (
                  arith,
                  informed_fields (record r { status = (S.invocation w).0 }) (S.invocation w).0,
                ))))
        | inr done ↦
            let (o, is, a) = Runs-final r w sleeps (omega arith) done in
            (
              o,
              0,
              step_final (suc fuel) r w sleeps done ∙ ap some (sym is),
              rw is (omega arith),
              omega arith,
              a,
            )
      ]

  -- `issueRequest` returns. With `k` for the retries that it counts, it has called the server `k + 1`
  -- times, at most `retryLimit + 1` times in all, and keeps the last answer. All answers before it
  -- were errors to retry. It returns true exactly if the last is not, and false only after
  -- `retryLimit` retries.
  pub issue_request-Answered :
      (r : GrpcRetrier) (w : S.World)
      → (o : Outcome S) × (issue_request S r w ≡ some o)
        × (o.retrier.retry_attempts ≤ r.retry_limit)
        × Answered r.retryable_status_codes r.retry_limit o.retrier.retry_attempts w o
  unfolding issue_request
  issue_request-Answered r w =
      let (o, k, e, count, bound, a) =
        loop-Runs r.retry_limit (record r { retry_attempts = 0 }) w [] (omega arith) in
      let same : o.retrier.retry_attempts ≡ k = omega arith in (o, e, omega arith, rw same a)
