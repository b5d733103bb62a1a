-- ===== src/Client/Missing.antt =====
-- `Client::findMissingBlobs`
pub mod Answer
pub mod Sizes
use mathlib.Core.List.{flatten}
use buildbox_common.Prelude.{
  Option, ℕ, zero, suc, ◌+◌, ◌≤◌, ◌<◌, ◌≡◌, refl, sym, ap, ◌∙◌, inl, inr, Bool, true, false, List,
  [], ◌∷◌, ◌++◌, append_assoc, append-nil, arith, ◌*◌, ltb, if◌then◌else◌, Bool-cases,
}
use buildbox_common.Digest.{Digest}
use buildbox_common.Prelude.Int.{ℤ}
use buildbox_common.Retrier.{Status, Service}
use buildbox_common.Client.Requests.{
  Attempt, ok, grpc_error, runtime_error, stuck, Settings, issue_request_and_throw_on_errors,
}

-- `bytestreamChunkSizeBytes()`
abbrev pub chunk_size : ℕ
chunk_size = 1024 * 1024

-- `Digest::ByteSizeLong()` is protobuf's.
module _ (byte_size : Digest → ℕ) where
  -- The first loop: `request` holds the digests of the request being built.
  pub split_requests : ℕ → List Digest → List (List Digest) → List Digest → List (List Digest)
  split_requests batch_size request to_issue [] = to_issue ++ (request ∷ [])
  split_requests batch_size request to_issue (d ∷ ds) =
      let full = ltb chunk_size (batch_size + byte_size d) in
      split_requests (if full then 0 else batch_size + byte_size d)
        (if full then d ∷ [] else request ++ (d ∷ []))
        (if full then to_issue ++ (request ∷ []) else to_issue) ds

  unfoldable pub requests_to_issue : List Digest → List (List Digest)
  unfolding split_requests
  requests_to_issue digests = split_requests 0 [] [] digests

  abbrev pub bytes : List Digest → ℕ
  bytes [] = 0
  bytes (d ∷ ds) = byte_size d + bytes ds

  -- `FindMissingBlobs()` of the stub, which fills in `response`.
  pub record MissingStub : Type 1 where
    pub World : Type 0
    pub find_missing : List Digest → World → Status × List Digest × World
    pub retry_info : List ℕ → Option ℤ

  module _ (B : MissingStub) (c : Settings) where
    -- The lambda of one request: `response` is the first part of its state.
    abbrev pub missing_service : List Digest → Service
    missing_service request = record {
      World = List Digest × B.World;
      invocation = λ s. let (status, found, w) = B.find_missing request s.1 in (status, (found, w));
      retry_info = B.retry_info;
    }

    -- What a round does with the outcome of its request; `go_on` is the rest of the loop.
    abbrev pub after_request :
        (List Digest → B.World → Attempt (List Digest) × B.World)
        → List Digest
        → Attempt (Unit {0}) × List Digest × B.World
        → Attempt (List Digest) × B.World
    after_request go_on missing (ok _, found, w) = go_on (missing ++ found) w
    after_request go_on missing (grpc_error status, found, w) = (grpc_error status, w)
    after_request go_on missing (runtime_error, found, w) = (runtime_error, w)
    after_request go_on missing (stuck, found, w) = (stuck, w)

    -- The second loop.
    pub issue_all : List (List Digest) → List Digest → B.World → Attempt (List Digest) × B.World
    issue_all [] missing w = (ok missing, w)
    issue_all (request ∷ rest) missing w =
        let (attempt, s) = issue_request_and_throw_on_errors (missing_service request) c ([], w) in
        after_request (issue_all rest) missing (attempt, s.0, s.1)

    -- `findMissingBlobs`
    unfoldable pub find_missing_blobs : List Digest → B.World → Attempt (List Digest) × B.World
    unfolding issue_all requests_to_issue
    find_missing_blobs digests w = issue_all (requests_to_issue digests) [] w
