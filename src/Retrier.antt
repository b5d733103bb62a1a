-- ===== src/Retrier.antt =====
-- `GrpcRetrier` (buildbox-common/buildboxcommon/buildboxcommon_grpcretrier.h and .cpp).
-- gRPC is not part of the repository: a call of the server is the parameter `invocation` of
-- `Service`, over a state of the world that it may change, and the protobuf parser of a `RetryInfo`
-- message with its conversion to milliseconds is `retry_info`. Log messages and the metadata
-- attacher, which only decorates the context of a call, are left out.
pub mod Bounds
pub mod Delays
pub mod Success
mod Tests
use buildbox_common.Prelude.{
  ℕ, zero, suc, ◌+◌, Bool, true, false, not, ◌&&◌, ◌||◌, List, [], ◌∷◌, ◌++◌, Option, none, some,
  ◌==◌, leb, if◌then◌else◌, Text,
}
use buildbox_common.Prelude.Int.{ℤ, pos, negsuc}

-- The numeric values of `grpc::StatusCode` that the code names.
abbrev pub ok_code : ℕ
ok_code = 0

abbrev pub internal : ℕ
internal = 13

abbrev pub unavailable : ℕ
unavailable = 14

abbrev pub data_loss : ℕ
data_loss = 15

-- `grpc::Status`, as far as the code reads it.
pub record Status : Type 0 where
  pub error_code : ℕ
  pub error_details : Text

-- `status.ok()`
abbrev pub is_ok : Status → Bool
is_ok s = s.error_code == ok_code

pub record Service : Type 1 where
  pub World : Type 0
  pub invocation : World → Status × World
  pub retry_info : Text → Option ℤ

pub record GrpcRetrier : Type 0 where
  pub retry_limit : ℕ
  pub retry_delay_base : ℕ
  pub retryable_status_codes : List ℕ
  pub status : Status
  pub retry_attempts : ℕ

-- The wait before a retry: `base * pow(1.6, attempts)` milliseconds. The product is a floating-point
-- number, and is kept as its two factors.
pub record Sleep : Type 0 where
  pub base : ℕ
  pub attempts : ℕ

-- `grpc::Status()`, the value of `d_status` before the first call.
abbrev default_status : Status
default_status = record { error_code = ok_code; error_details = [] }

-- The constructor: `UNAVAILABLE` is always retried.
unfoldable pub make : ℕ → ℕ → List ℕ → GrpcRetrier
make limit delay codes = record {
  retry_limit = limit;
  retry_delay_base = delay;
  retryable_status_codes = unavailable ∷ codes;
  status = default_status;
  retry_attempts = 0;
}

unfoldable pub contains : List ℕ → ℕ → Bool
contains [] code = false
contains (c ∷ rest) code = c == code || contains rest code

-- `statusIsRetryable`
unfoldable pub status_is_retryable : GrpcRetrier → Status → Bool
unfolding contains
status_is_retryable r s = contains r.retryable_status_codes s.error_code

unfoldable pub is_nil : Text → Bool
is_nil [] = true
is_nil (_ ∷ _) = false

-- What a parsed `RetryInfo` makes of the base delay.
override_delay : GrpcRetrier → Option ℤ → GrpcRetrier
override_delay r (some (pos (suc n))) = record r { retry_delay_base = suc n }
override_delay r _ = r

module _ (S : Service) where
  -- The server's delay, if it is the first attempt and the error has details.
  unfoldable pub read_retry_info : GrpcRetrier → Status → GrpcRetrier
  unfolding is_nil override_delay
  read_retry_info r s =
      if r.retry_attempts == 0 && not (is_nil s.error_details)
      then override_delay r (S.retry_info s.error_details)
      else r

  pub record Outcome : Type 0 where
    pub result : Bool
    pub retrier : GrpcRetrier
    pub world : S.World
    pub sleeps : List Sleep

  -- The loop of `issueRequest`; `none` is that the fuel ran out.
  unfoldable pub issue_loop : ℕ → GrpcRetrier → S.World → List Sleep → Option Outcome
  issue_loop zero r w sleeps = none
  issue_loop (suc fuel) r w sleeps =
      let (s, w') = S.invocation w in
      let received = record r { status = s } in
      let informed = read_retry_info received s in
      let next =
        issue_loop fuel (record informed { retry_attempts = informed.retry_attempts + 1 }) w'
          (sleeps
            ++ (record { base = informed.retry_delay_base; attempts = informed.retry_attempts }
                ∷ [])) in
      if is_ok s || not (status_is_retryable received s)
      then some (record { result = true; retrier = received; world = w'; sleeps = sleeps })
      else if leb informed.retry_limit informed.retry_attempts
      then some (record { result = false; retrier = informed; world = w'; sleeps = sleeps })
      else next

  -- `issueRequest`
  unfoldable pub issue_request : GrpcRetrier → S.World → Option Outcome
  unfolding issue_loop
  issue_request r w = issue_loop (suc r.retry_limit) (record r { retry_attempts = 0 }) w []
