-- ===== src/Client/Upload/Answer.antt =====
-- What `uploadBlobs` reports when the server answers for each blob in one way, in a batch or alone.
use buildbox_common.Prelude.{
  ℕ, ◌+◌, ◌-◌, ◌≤◌, ◌<◌, ◌^◌, ◌≡◌, refl, sym, ap, ap₂, subst, ◌∙◌, true, false, List, [], ◌∷◌, ◌++◌,
  append_assoc, append-nil, arith, map, some, if◌then◌else◌, Text, take, drop, drop-drop, drop-map,
  take-take, Bool-cases, inl, inr,
}
use buildbox_common.Digest.{Digest}
use buildbox_common.Retrier.{Status, is_ok}
use buildbox_common.Client.Batches.{make_batches, container_size}
use buildbox_common.Client.Batches.Greedy.{Partition, AreSmall, make_batches-Partition}
use buildbox_common.Client.Requests.{Attempt, ok, grpc_error, Settings, issue_ok}
use buildbox_common.Client.Upload.{
  UploadRequest, UploadResult, Backend, without_details, failed_results, slice, last_end, blob,
  build_request, batch_service, after_batch, batch_upload, after_batch_upload, after_upload,
  upload_rest, upload_batches, upload_blobs,
}

abbrev pub digest_of : UploadRequest → Digest
digest_of r = r.digest

module _ (outcome : Digest → Status) where
  -- The failures that the outcomes of the requests' digests make, in order.
  unfoldable pub report : List UploadRequest → List UploadResult
  report [] = []
  report (r ∷ rest) =
      if is_ok (outcome r.digest)
      then report rest
      else (record { digest = r.digest; status = outcome r.digest }) ∷ report rest

  report-append : (xs ys : List UploadRequest) → report (xs ++ ys) ≡ report xs ++ report ys
  unfolding report
  report-append [] ys = refl
  report-append (x ∷ xs) ys = ground (arith, report-append xs ys)

module _ (outcome : Digest → Status) where
  abbrev pub plain : Digest → Status
  plain d = without_details (outcome d)

  -- The failures of the first `k` requests, which are answered in batches, whose statuses lose their
  -- details, and of the others, which are answered alone.
  abbrev pub report_split : ℕ → List UploadRequest → List UploadResult
  report_split k requests = report plain (take k requests) ++ report outcome (drop k requests)

  abbrev pub answers : List (Digest × Text) → List UploadResult
  answers [] = []
  answers ((d, contents) ∷ rest) = (record { digest = d; status = outcome d }) ∷ answers rest

  -- Batches are answered with OK and one outcome for each entry; a blob that is uploaded alone meets
  -- the same outcome; files can be read.
  pub record IsUniform (B : Backend) : Type 0 where
    pub batch_ok :
        (entries : List (Digest × Text)) (w : B.World)
        → is_ok (B.batch_update_blobs entries w).0 ≡ true
    pub batch_answers :
        (entries : List (Digest × Text)) (w : B.World)
        → (B.batch_update_blobs entries w).1 ≡ answers entries
    pub alone :
        (r : UploadRequest) (w : B.World)
        → (B.upload_request r w).0
          ≡ (if is_ok (outcome r.digest) then ok tt else grpc_error (outcome r.digest))
    pub reads : (path : Text) (w : B.World) → (t : Text) × (B.file_contents path w ≡ some t)

  module _ (B : Backend) (c : Settings) (U : IsUniform B) where
    built :
        (requests : List UploadRequest) (w : B.World)
        → (entries : List (Digest × Text)) × (build_request B c requests w ≡ some entries)
          × (failed_results (answers entries) ≡ report plain requests)
    unfolding build_request failed_results report
    built [] w = ([], refl, refl)
    built (r ∷ rest) w =
        let (entries, e, same) = built rest w in
        let (t, read) = contents r in
        ((r.digest, t) ∷ entries, ground (arith, e, read), ground (arith, same))
      where
        contents : (r : UploadRequest) → (t : Text) × (blob B c r w ≡ some t)
        contents r = go r.path
          where
            go :
                (path : Text)
                → (t : Text) × (elim path [
                  | [] ↦ some r.data_bytes
                  | x ∷ xs ↦ B.file_contents (x ∷ xs) w
                ]
                    ≡ some t)
            go [] = (r.data_bytes, refl)
            go (x ∷ xs) = U.reads (x ∷ xs) w

    batch_reported :
        (requests : List UploadRequest) (w : B.World)
        → (w' : B.World) × (batch_upload B c requests w ≡ (ok (report plain requests), w'))
    unfolding batch_upload
    batch_reported requests w =
        let (entries, e, same) = built requests w in
        let issued = issue_ok (batch_service B c entries) c ([], w) (U.batch_ok entries w) in
        (
          (B.batch_update_blobs entries w).2,
          rw (e, batch_upload)
              (ap (after_batch B c) issued
                ∙ ap (λ l. (ok (failed_results l), (B.batch_update_blobs entries w).2))
                    (U.batch_answers entries w)
                ∙ rw same),
        )

    -- One blob that is uploaded alone, given what the rest of the loop does.
    one_reported :
        (r : UploadRequest) (rest : List UploadRequest) (results : List UploadResult)
        (a : Attempt (Unit {0}) × B.World)
        → a.0 ≡ (if is_ok (outcome r.digest) then ok tt else grpc_error (outcome r.digest))
        → ((more : List UploadResult) (w : B.World)
            → (upload_rest B c false rest more w).0 ≡ ok (more ++ report outcome rest))
        → (after_upload B c false r results (upload_rest B c false rest) a).0
          ≡ ok (results ++ report outcome (r ∷ rest))
    unfolding report
    one_reported r rest results (x, w) e ih = elim (Bool-cases (is_ok (outcome r.digest))) [
      | inl good ↦
          ap (λ y. (after_upload B c false r results (upload_rest B c false rest) (y, w)).0)
            (rw good at e)
          ∙ (ih results w ∙ rw good)
      | inr bad ↦
          ap (λ y. (after_upload B c false r results (upload_rest B c false rest) (y, w)).0)
            (rw bad at e)
          ∙ (ih (results ++ (record { digest = r.digest; status = outcome r.digest }) ∷ []) w
              ∙ rw (bad, append_assoc results))
    ]

    rest_reported :
        (rest : List UploadRequest) (results : List UploadResult) (w : B.World)
        → (upload_rest B c false rest results w).0 ≡ ok (results ++ report outcome rest)
    unfolding upload_rest
    rest_reported [] results w = unfold report in ap ok (sym (append-nil results))
    rest_reported (r ∷ rest) results w =
        one_reported r rest results (B.upload_request r w) (U.alone r w) (rest_reported rest)

    -- The end of the last batch, for batches that begin at `start`.
    abbrev end_from : ℕ → List (ℕ × ℕ) → ℕ
    end_from start [] = start
    end_from start ((a, b) ∷ more) = end_from b more

    last_end-end_from : (bs : List (ℕ × ℕ)) → last_end bs ≡ end_from 0 bs
    unfolding last_end
    last_end-end_from [] = refl
    last_end-end_from (b ∷ []) = refl
    last_end-end_from (b ∷ d ∷ bs) = last_end-end_from (d ∷ bs)

    Partition-end_from :
        (max_size start : ℕ) (ds : List Digest) (bs : List (ℕ × ℕ))
        → Partition max_size start ds bs
        → start ≤ end_from start bs
    Partition-end_from max_size start ds [] p = omega arith
    Partition-end_from max_size start ds ((a, b) ∷ more) p =
        let (n, _, eb, _, _, _, _, rest) = p in
        omega (arith, eb, Partition-end_from max_size b (drop n ds) more rest)

    -- The reports of the batch from `a` to `b`, of the batches after it, and of what is left.
    one_more :
        (a b n start end : ℕ) (list : List UploadRequest)
        → a ≡ start
        → b ≡ start + n
        → b ≤ end
        → report plain (slice a b list)
            ++ (report plain (take (end - b) (drop b list)) ++ report outcome (drop end list))
          ≡ report plain (take (end - start) (drop start list)) ++ report outcome (drop end list)
    one_more a b n start end list ea eb h =
        let len : b - a ≡ n = omega arith in
        let all : n + (end - b) ≡ end - start = omega arith in
        let rest = take (end - b) (drop b list) in
        let after : drop b list ≡ drop n (drop start list) =
          ap (λ k. drop k list) eb ∙ drop-drop start n list in
        let first : slice a b list ≡ take n (drop start list) =
          ap₂ (λ k l. take k l) len (ap (λ k. drop k list) ea) in
        let joined : slice a b list ++ rest ≡ take (end - start) (drop start list) =
          ap₂ (λ x y. x ++ take (end - b) y) first after
          ∙ (take-take n (end - b) (drop start list) ∙ ap (λ k. take k (drop start list)) all) in
        sym (append_assoc (report plain (slice a b list)) (report plain rest) _)
        ∙ ap (λ x. x ++ report outcome (drop end list))
            (sym (report-append plain (slice a b list) rest) ∙ ap (report plain) joined)

    batches_reported :
        (max_size start end : ℕ) (list : List UploadRequest) (bs : List (ℕ × ℕ))
        (results : List UploadResult) (w : B.World)
        → end_from start bs ≡ end
        → Partition max_size start (map digest_of (drop start list)) bs
        → (upload_batches B c false list end bs results w).0
          ≡ ok (
              results
              ++ (report plain (take (end - start) (drop start list))
                  ++ report outcome (drop end list)))
    unfolding upload_batches
    batches_reported max_size start end list [] results w e p =
        let none_left : end - start ≡ 0 = omega arith in
        rest_reported (drop end list) results w ∙ rw none_left (unfold report in refl)
    batches_reported max_size start end list ((a, b) ∷ more) results w e p =
        let (n, ea, eb, _, _, _, _, rest) = p in
        let (w', done) = batch_reported (slice a b list) w in
        let after : drop n (drop start list) ≡ drop b list =
          sym (drop-drop start n list) ∙ ap (λ k. drop k list) (sym eb) in
        let same : map digest_of (drop b list) ≡ drop n (map digest_of (drop start list)) =
          ap (map digest_of) (sym after) ∙ sym (drop-map digest_of n (drop start list)) in
        let further : Partition max_size b (map digest_of (drop b list)) more =
          subst (λ l. Partition max_size b l more) (sym same) rest in
        let first = report plain (slice a b list) in
        let ih = batches_reported max_size b end list more (results ++ first) w' e further in
        let below : b ≤ end = subst (λ k. b ≤ k) e (Partition-end_from max_size b _ more further) in
        ap
          (λ r.
            (after_batch_upload B c false (slice a b list) results
              (upload_batches B c false list end more) r).0)
          done
        ∙ (ih
            ∙ ap ok (
                append_assoc results first _
                ∙ ap (λ l. results ++ l) (one_more a b n start end list ea eb below)))

    -- The number of blobs of the sorted list that are uploaded in batches.
    abbrev pub batched : ℕ → List UploadRequest → ℕ
    batched max_total requests =
        last_end (make_batches max_total (map digest_of (B.sort_by_size requests)))

    -- From a server that answers each batch with OK and, in the order of its entries, with the one outcome
    -- that it has for each blob, that has the same outcome for a blob alone, and with files that can be
    -- read, `uploadBlobs` without `throw_on_error` returns the blobs whose outcome is an error, each
    -- with that status, once for each time that the sorted list holds it, and in the order of that list;
    -- the statuses of the blobs before the end of the last batch are without their details. The limit of a
    -- batch is from 256 bytes up and below 2^62, and the size of each blob is below 2^62.
    pub upload_blobs-report :
        (max_total : ℕ) (requests : List UploadRequest) (w : B.World)
        → 256 ≤ max_total
        → max_total < 2 ^ 62
        → AreSmall (map digest_of (B.sort_by_size requests))
        → (upload_blobs B c max_total requests false w).0
          ≡ ok (report_split (batched max_total requests) (B.sort_by_size requests))
    unfolding upload_blobs
    upload_blobs-report max_total requests w h k s =
        let list = B.sort_by_size requests in
        let bs = make_batches max_total (map digest_of list) in
        let all : last_end bs - 0 ≡ last_end bs = omega arith in
        batches_reported (max_total - container_size) 0 (last_end bs) list bs [] w
          (sym (last_end-end_from bs)) (make_batches-Partition max_total (map digest_of list) h k s)
        ∙ ap (λ n. ok (report plain (take n list) ++ report outcome (drop (last_end bs) list))) all
