-- ===== src/Client/Download/Verified.antt =====
-- What `downloadBlobs` returns.
use buildbox_common.Prelude.{
  ℕ, ◌≡◌, refl, inl, inr, Bool, true, false, not, ◌&&◌, ◌||◌, List, [], ◌∷◌, arith, Text, text_eq,
  Bool-cases,
}
use buildbox_common.Prelude.Maps.{map_emplace, emplace-cases}
use buildbox_common.Digest.{Digest}
use buildbox_common.Retrier.{Status, is_ok}
use buildbox_common.Client.Requests.{ok, grpc_error, runtime_error, stuck, Settings, is_ok_attempt}
use buildbox_common.Client.Download.{
  DownloadResult, Source, Names, DownloadResults, download_blobs, DownloadBlobsResult, write_result,
  add_failed, finish_download, download_to_result,
}
use buildbox_common.Client.Download.Guarded.{Guarded, download_blobs-Returns}

module _ (B : Source) (c : Settings) (n : Names) where
  -- Each entry with an OK status has data with the hash that it stands under.
  unfoldable pub all_verified : DownloadBlobsResult B c n → Bool
  unfolding text_eq
  all_verified [] = true
  all_verified ((hash, (status, bytes)) ∷ rest) =
      (not (is_ok status) || text_eq (B.hash bytes).hash_other hash) && all_verified rest

  emplace-all_verified :
      (result : DownloadBlobsResult B c n) (hash : Text) (status : Status) (bytes : Text)
      → (not (is_ok status) || text_eq (B.hash bytes).hash_other hash) ≡ true
      → all_verified result ≡ true
      → all_verified (map_emplace result hash (status, bytes)) ≡ true
  unfolding all_verified
  emplace-all_verified result hash status bytes e h =
      elim (emplace-cases result hash (status, bytes)) [
        | inl new ↦ rw new (ground arith)
        | inr old ↦ rw old h
      ]

  write_result-Guarded : Guarded B c n (write_result B c n) (λ result. all_verified result ≡ true)
  unfolding write_result
  write_result-Guarded = record {
    kept =
        λ hash bytes result e h. emplace-all_verified result hash _ bytes (rw e (ground arith)) h;
    ends = λ hash bytes result. refl;
  }

  add_failed-all_verified :
      (rs : List DownloadResult) (result : DownloadBlobsResult B c n)
      → all_verified result ≡ true
      → all_verified (add_failed B c n rs result) ≡ true
  unfolding add_failed
  add_failed-all_verified [] result h = h
  add_failed-all_verified (r ∷ rest) result h = elim (Bool-cases (is_ok r.status)) [
    | inl good ↦ rw good (add_failed-all_verified rest result h)
    | inr bad ↦ rw bad (
        add_failed-all_verified rest _
          (emplace-all_verified result r.digest.hash_other r.status [] (ground arith) h))
  ]

  -- `downloadBlobs` into a result returns, whatever the server does, and all data in the result whose
  -- status is OK has the hash under which it stands.
  pub download_to_result-all_verified :
      (max_total : ℕ) (digests : List Digest) (w : B.World)
      → (result : DownloadBlobsResult B c n) × (w' : B.World) × (download_to_result B c n max_total
            digests w
          ≡ (ok result, w'))
        × (all_verified result ≡ true)
  unfolding download_to_result all_verified finish_download
  download_to_result-all_verified max_total digests w =
      let facts =
        download_blobs-Returns B c n (write_result B c n) (λ result. all_verified result ≡ true)
          write_result-Guarded max_total digests ([], w) refl in
      go (download_blobs B c n (write_result B c n) max_total digests false ([], w)) facts.0 facts.1
    where
      go :
          (r : DownloadResults B c n (write_result B c n))
          → is_ok_attempt r.0 ≡ true
          → all_verified r.1.0 ≡ true
          → (result : DownloadBlobsResult B c n) × (w' : B.World) × (finish_download B c n r
              ≡ (ok result, w'))
            × (all_verified result ≡ true)
      go (ok results, (result, w')) h v =
          (add_failed B c n results result, w', refl, add_failed-all_verified results result v)
      go (grpc_error status, s) h v = absurd cc
      go (runtime_error, s) h v = absurd cc
      go (stuck, s) h v = absurd cc
