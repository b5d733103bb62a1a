-- ===== src/Client/Download/Guarded.antt =====
-- A download hands its callback only data that has the hash that it hands on with it, and ends.
use mathlib.Core.List.{flatten}
use buildbox_common.Prelude.{
  ℕ, ◌≡◌, refl, sym, ap, subst, ◌∙◌, inl, inr, true, false, ◌&&◌, List, [], ◌∷◌, arith, ◌==◌, Text,
  text_eq, drop, length, Bool-cases,
}
use buildbox_common.Digest.{Digest, digest_eq}
use buildbox_common.Retrier.{is_ok}
use buildbox_common.Client.Batches.{make_batches}
use buildbox_common.Client.Requests.{
  Attempt, ok, grpc_error, runtime_error, stuck, Settings, is_stuck, is_ok_attempt, Ended,
  issue-Ended,
}
use buildbox_common.Client.Upload.{slice, last_end}
use buildbox_common.Client.Download.{
  DownloadResult, BlobResponse, Source, Names, Fetched, nothing_fetched, fetched, mismatch,
  check_blob, fetch_service, after_fetch, fetch_string, DownloadResults, after_write,
  read_responses, read_service, after_read, batch_download, after_batch_download, write_fetched,
  after_download, download_rest, download_batches, download_blobs, make_resource_name,
}

module _ (B : Source) (c : Settings) (n : Names) where
  -- The data of a fetch has the digest; a fetch ends.
  abbrev pub FetchedIs : Digest → Attempt Text → Type 0
  FetchedIs digest (ok bytes) = digest_eq (B.hash bytes) digest ≡ true
  FetchedIs digest (grpc_error status) = Unit
  FetchedIs digest runtime_error = Unit
  FetchedIs digest stuck = ⊥

  check_blob-FetchedIs :
      (digest : Digest) (bytes : Text) (f : Fetched) (w : B.World)
      → f ≡ check_blob B c n digest bytes
      → FetchedIs digest (after_fetch B c n (ok tt, (f, w))).0
  unfolding check_blob after_fetch
  check_blob-FetchedIs digest bytes f w e =
      elim (Bool-cases (length bytes == digest.size_bytes && digest_eq (B.hash bytes) digest)) [
        | inl good ↦
            let same : f ≡ fetched bytes = ground arith in
            subst (λ x. FetchedIs digest (after_fetch B c n (ok tt, (x, w))).0) (sym same)
              (ground arith)
        | inr bad ↦
            let same : f ≡ mismatch = ground arith in
            subst (λ x. FetchedIs digest (after_fetch B c n (ok tt, (x, w))).0) (sym same) tt
      ]

  after_fetch-FetchedIs :
      (digest : Digest) (r : Attempt (Unit {0}) × (Fetched × B.World))
      → Ended (fetch_service B c n digest) r
      → FetchedIs digest (after_fetch B c n r).0
  unfolding after_fetch
  after_fetch-FetchedIs digest (ok u, (f, w)) e =
      let (v, good, last) = e.1 refl in
      let chunks = (B.read_stream (make_resource_name n digest false) 0 v.1).1 in
      check_blob-FetchedIs digest (flatten chunks) f w (ap (λ s. s.0) last ∙ rw good refl)
  after_fetch-FetchedIs digest (grpc_error status, s) e = tt
  after_fetch-FetchedIs digest (runtime_error, s) e = tt
  after_fetch-FetchedIs digest (stuck, s) e = absurd (let f = e.0 in cc)

  -- What `fetchString` returns has the digest that was asked for.
  pub fetch_string-FetchedIs :
      (digest : Digest) (w : B.World) → FetchedIs digest (fetch_string B c n digest w).0
  unfolding fetch_string
  fetch_string-FetchedIs digest w =
      after_fetch-FetchedIs digest _
        (issue-Ended (fetch_service B c n digest) c (nothing_fetched, w))

  -- A property of the state of a callback that holds on, whenever the callback gets data with the hash
  -- that it gets.
  pub record Guarded {S : Type 0} (write_blob : Text → Text → S → Attempt (Unit {0}) × S)
      (I : S → Type 0) : Type 0 where
    pub kept :
        (hash bytes : Text) (s : S)
        → text_eq (B.hash bytes).hash_other hash ≡ true
        → I s
        → I (write_blob hash bytes s).1
    pub ends : (hash bytes : Text) (s : S) → is_stuck (write_blob hash bytes s).0 ≡ false

  digest_eq→hash :
      (bytes : Text) (digest : Digest)
      → digest_eq (B.hash bytes) digest ≡ true
      → text_eq (B.hash bytes).hash_other digest.hash_other ≡ true
  unfolding digest_eq
  digest_eq→hash bytes digest h = ground arith

  module _ {S : Type 0} (write_blob : Text → Text → S → Attempt (Unit {0}) × S) (I : S → Type 0)
      (G : Guarded write_blob I) where
    abbrev Ends : {A T : Type 0} → Attempt A × (S × T) → Type 0
    Ends r = (is_stuck r.0 ≡ false) × I r.1.0

    abbrev EndsAt : {A : Type 0} → Attempt A × S → Type 0
    EndsAt r = (is_stuck r.0 ≡ false) × I r.1

    after_write-EndsAt :
        (go_on : S → Attempt (List DownloadResult) × S) (r : Attempt (Unit {0}) × S)
        → ((s : S) → I s → EndsAt (go_on s))
        → EndsAt r
        → EndsAt (after_write B c n write_blob go_on r)
    unfolding after_write
    after_write-EndsAt go_on (ok u, s) h e = h s e.1
    after_write-EndsAt go_on (grpc_error status, s) h e = (refl, e.1)
    after_write-EndsAt go_on (runtime_error, s) h e = (refl, e.1)
    after_write-EndsAt go_on (stuck, s) h e = e

    responses-EndsAt :
        (rs : List BlobResponse) (results : List DownloadResult) (s : S)
        → I s
        → EndsAt (read_responses B c n write_blob rs results s)
    unfolding read_responses
    responses-EndsAt [] results s h = (refl, h)
    responses-EndsAt (r ∷ rest) results s h = elim (Bool-cases (is_ok r.status)) [
      | inr bad ↦ rw bad (responses-EndsAt rest _ s h)
      | inl good ↦ elim (Bool-cases (digest_eq (B.hash r.data_bytes) r.digest)) [
        | inr other ↦ rw (good, other) (responses-EndsAt rest _ s h)
        | inl same ↦
            let hash = digest_eq→hash r.data_bytes r.digest same in
            rw (good, same)
              (after_write-EndsAt _ (write_blob r.digest.hash_other r.data_bytes s)
                (λ s' h'. responses-EndsAt rest _ s' h')
                (
                  G.ends r.digest.hash_other r.data_bytes s,
                  G.kept r.digest.hash_other r.data_bytes s hash h,
                ))
      ]
    ]

    after_read-Ends :
        (s : S) (r : Attempt (Unit {0}) × (List BlobResponse × B.World))
        → I s
        → is_stuck r.0 ≡ false
        → Ends (after_read B c n write_blob s r)
    unfolding after_read
    after_read-Ends s (ok u, (responses, w)) h e = responses-EndsAt responses [] s h
    after_read-Ends s (grpc_error status, (_, w)) h e = (refl, h)
    after_read-Ends s (runtime_error, (_, w)) h e = (refl, h)
    after_read-Ends s (stuck, (_, w)) h e = absurd cc

    batch-Ends :
        (digests : List Digest) (w : S × B.World)
        → I w.0
        → Ends (batch_download B c n write_blob digests w)
    unfolding batch_download
    batch-Ends digests (s, w) h =
        after_read-Ends s _ h (issue-Ended (read_service B c n write_blob digests) c ([], w)).0

    write_fetched-Ends :
        (digest : Digest) (s : S) (r : Attempt Text × B.World)
        → I s
        → FetchedIs digest r.0
        → Ends (write_fetched B c n write_blob digest s r)
    unfolding write_fetched
    write_fetched-Ends digest s (ok bytes, w) h e = (
      G.ends digest.hash_other bytes s,
      G.kept digest.hash_other bytes s (digest_eq→hash bytes digest e) h,
    )
    write_fetched-Ends digest s (grpc_error status, w) h e = (refl, h)
    write_fetched-Ends digest s (runtime_error, w) h e = (refl, h)
    write_fetched-Ends digest s (stuck, w) h e = absurd e

    abbrev Returns : DownloadResults B c n write_blob → Type 0
    Returns r = (is_ok_attempt r.0 ≡ true) × I r.1.0

    after_batch-Returns :
        (batch : List Digest) (results : List DownloadResult)
        (go_on : List DownloadResult → S × B.World → DownloadResults B c n write_blob)
        (r : DownloadResults B c n write_blob)
        → ((more : List DownloadResult) (w : S × B.World) → I w.0 → Returns (go_on more w))
        → Ends r
        → Returns (after_batch_download B c n write_blob false batch results go_on r)
    unfolding after_batch_download
    after_batch-Returns batch results go_on (ok more, w) h e = h _ w e.1
    after_batch-Returns batch results go_on (grpc_error status, w) h e = h _ w e.1
    after_batch-Returns batch results go_on (runtime_error, w) h e = h _ w e.1
    after_batch-Returns batch results go_on (stuck, w) h e = absurd (let f = e.0 in cc)

    after_download-Returns :
        (d : Digest) (results : List DownloadResult)
        (go_on : List DownloadResult → S × B.World → DownloadResults B c n write_blob)
        (r : Attempt (Unit {0}) × (S × B.World))
        → ((more : List DownloadResult) (w : S × B.World) → I w.0 → Returns (go_on more w))
        → Ends r
        → Returns (after_download B c n write_blob false d results go_on r)
    unfolding after_download
    after_download-Returns d results go_on (ok u, w) h e = h _ w e.1
    after_download-Returns d results go_on (grpc_error status, w) h e = h _ w e.1
    after_download-Returns d results go_on (runtime_error, w) h e = h _ w e.1
    after_download-Returns d results go_on (stuck, w) h e = absurd (let f = e.0 in cc)

    rest-Returns :
        (ds : List Digest) (results : List DownloadResult) (w : S × B.World)
        → I w.0
        → Returns (download_rest B c n write_blob false ds results w)
    unfolding download_rest
    rest-Returns [] results w h = (refl, h)
    rest-Returns (d ∷ ds) results w h =
        after_download-Returns d results (download_rest B c n write_blob false ds) _
          (rest-Returns ds)
          (write_fetched-Ends d w.0 (fetch_string B c n d w.1) h (fetch_string-FetchedIs d w.1))

    batches-Returns :
        (request_list : List Digest) (end : ℕ) (batches : List (ℕ × ℕ))
        (results : List DownloadResult) (w : S × B.World)
        → I w.0
        → Returns (download_batches B c n write_blob false request_list end batches results w)
    unfolding download_batches
    batches-Returns request_list end [] results w h =
        rest-Returns (drop end request_list) results w h
    batches-Returns request_list end ((a, b) ∷ more) results w h =
        after_batch-Returns (slice a b request_list) results
          (download_batches B c n write_blob false request_list end more) _
          (batches-Returns request_list end more) (batch-Ends (slice a b request_list) w h)

    -- `downloadBlobs` without exceptions returns, and keeps what its callback keeps.
    pub download_blobs-Returns :
        (max_total : ℕ) (digests : List Digest) (w : S × B.World)
        → I w.0
        → (is_ok_attempt (download_blobs B c n write_blob max_total digests false w).0 ≡ true)
          × I (download_blobs B c n write_blob max_total digests false w).1.0
    unfolding download_blobs
    download_blobs-Returns max_total digests w h =
        let request_list = B.sort_digests digests in
        let batches = make_batches max_total request_list in
        batches-Returns request_list (last_end batches) batches [] w h
