-- ===== src/Retrier/Tests.antt =====
-- A server that is unavailable twice, with a delay of 50 ms in its first answer, and then answers.
use buildbox_common.Prelude.{
  ℕ, zero, suc, ◌≤◌, ◌<◌, arith, ◌≡◌, refl, true, [], ◌∷◌, some, if◌then◌else◌, leb, ◌+◌, codes,
}
use buildbox_common.Prelude.Int.{pos}
use buildbox_common.Retrier.{
  Status, Service, GrpcRetrier, Outcome, unavailable, ok_code, make, issue_request,
}
use buildbox_common.Retrier.Bounds.{
  Answered, should_retry, nth_status, world_after, issue_request-Answered,
}
use buildbox_common.Retrier.Success.{issue_request-Success}
use buildbox_common.Retrier.Delays.{waits, first_base, issue_request-waits}

abbrev answer : ℕ → Status
answer w = record {
  error_code = if leb 2 w then ok_code else unavailable;
  error_details = if leb 2 w then [] else codes "retry";
}

abbrev flaky : Service
flaky = record {
  World = ℕ;
  invocation = λ w. (answer w, w + 1);
  retry_info = λ details. some (pos 50);
}

abbrev patient : GrpcRetrier
patient = make 3 100 []

abbrev answered : Outcome flaky
answered = record {
  result = true;
  retrier = record patient { retry_delay_base = 50; status = answer 2; retry_attempts = 2 };
  world = 3;
  sleeps = record { base = 50; attempts = 0 } ∷ record { base = 50; attempts = 1 } ∷ [];
}

patient_run : issue_request flaky patient 0 ≡ some answered
unfolding issue_request make buildbox_common.Retrier.status_is_retryable
    buildbox_common.Retrier.read_retry_info
patient_run = refl

issue_request-Answered_example :
    (o : Outcome flaky) × (issue_request flaky patient 0 ≡ some o)
    × (o.retrier.retry_attempts ≤ patient.retry_limit)
    × Answered flaky patient.retryable_status_codes patient.retry_limit o.retrier.retry_attempts 0 o
issue_request-Answered_example = issue_request-Answered flaky patient 0

issue_request-waits_example : answered.sleeps ≡ waits (first_base flaky patient (answer 0)) 0 2
issue_request-waits_example = issue_request-waits flaky patient 0 answered patient_run

before : (i : ℕ) → i < 2 → should_retry patient.retryable_status_codes (nth_status flaky i 0) ≡ true
unfolding should_retry nth_status make
before zero l = refl
before (suc zero) l = refl
before (suc (suc i)) l = absurd (omega arith)

issue_request-Success_example :
    (o : Outcome flaky) × (issue_request flaky patient 0 ≡ some o)
    × (o.result ≡ true)
    × (o.retrier.retry_attempts ≡ 2)
    × (o.retrier.status ≡ nth_status flaky 2 0)
    × (o.world ≡ world_after flaky 3 0)
unfolding make should_retry nth_status
issue_request-Success_example = issue_request-Success flaky patient 0 2 (omega arith) before refl
