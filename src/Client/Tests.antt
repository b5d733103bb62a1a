-- ===== src/Client/Tests.antt =====
-- Three blobs, and servers for them that lack or refuse one.
use mathlib.Core.List.{Memᴰ}
use mathlib.Core.List.Memᴰ
use buildbox_common.Prelude.{
  ℕ, ◌+◌, ◌-◌, ◌≡◌, refl, sym, ap, ◌∙◌, inl, inr, Bool, false, List, [], ◌∷◌, ◌++◌, none, some,
  arith, leb, if◌then◌else◌, codes, Bool-cases,
}
use buildbox_common.Digest.{Digest}
use buildbox_common.Retrier.{Status, ok_code, is_ok}
use buildbox_common.Client.Requests.{ok, grpc_error, Settings}
use buildbox_common.Client.Batches.{container_size, make_batches}
use buildbox_common.Client.Batches.Greedy.{AreSmall, Partition, make_batches-Partition}
use buildbox_common.Client.Missing.{MissingStub, find_missing_blobs}
use buildbox_common.Client.Missing.Answer.{IsMissing, IsTruthful, find_missing_blobs_truthful}
use buildbox_common.Client.Upload.{UploadRequest, Backend, upload_blobs}
use buildbox_common.Client.Upload.Answer.{
  report_split, batched, answers, IsUniform, upload_blobs-report,
}

abbrev sized : ℕ → Digest
sized n = record { hash_other = codes "h"; size_bytes = n }

abbrev three : List Digest
three = sized 100 ∷ sized 200 ∷ sized 5000 ∷ []

abbrev settings : Settings
settings = record { grpc_retry_limit = 1; grpc_retry_delay = 100 }

three-AreSmall : AreSmall three
three-AreSmall = (omega arith, (omega arith, (omega arith, tt)))

-- The third is too large for a batch.
batches : make_batches 1256 three ≡ (0, 2) ∷ []
unfolding make_batches
batches = refl

make_batches-Partition_example : Partition (1256 - container_size) 0 three (make_batches 1256 three)
make_batches-Partition_example =
    make_batches-Partition 1256 three (omega arith) (omega arith) three-AreSmall

abbrev size_of : Digest → ℕ
size_of d = d.size_bytes

abbrev absent : Digest → Bool
absent d = leb d.size_bytes 150

abbrev fine : Status
fine = record { error_code = ok_code; error_details = [] }

-- The digests that the server lacks, the last one first.
abbrev lacked : List Digest → List Digest
lacked [] = []
lacked (d ∷ ds) = let rest = lacked ds in if absent d then rest ++ d ∷ [] else rest

lacked-IsMissing : (ds : List Digest) → IsMissing absent ds (lacked ds)
lacked-IsMissing [] d = (λ m. absurd (Memᴰ.not-nil m), λ m. m.0)
lacked-IsMissing (x ∷ xs) d = elim (Bool-cases (absent x)) [
  | inl lacks ↦ rw lacks (
    λ m. elim (Memᴰ.append_cases (lacked xs) m) [
      | inl there ↦ let (asked, e) = (lacked-IsMissing xs d).0 there in (Memᴰ.tail asked, e)
      | inr here ↦ let e = Memᴰ.eq_of_singleton here in (Memᴰ.head e, ap absent e ∙ lacks)
    ],
    λ m. elim (Memᴰ.cases_cons m.0) [
      | inl e ↦ Memᴰ.append_right (lacked xs) (Memᴰ.head e)
      | inr there ↦ Memᴰ.append_left (x ∷ []) ((lacked-IsMissing xs d).1 (there, m.1))
    ],
  )
  | inr has ↦ rw has (
    λ m. let (asked, e) = (lacked-IsMissing xs d).0 m in (Memᴰ.tail asked, e),
    λ m. elim (Memᴰ.cases_cons m.0) [
      | inl e ↦ absurd (ground (arith, sym (m.1) ∙ (ap absent e ∙ has)))
      | inr there ↦ (lacked-IsMissing xs d).1 (there, m.1)
    ],
  )
]

-- The world counts the calls.
abbrev cas : MissingStub size_of
cas = record {
  World = ℕ;
  find_missing = λ ds w. (fine, lacked ds, w + 1);
  retry_info = λ details. none;
}

cas-IsTruthful : IsTruthful size_of cas settings absent
cas-IsTruthful = record { answers_ok = λ ds w. refl; answers = λ ds w. lacked-IsMissing ds }

find_missing_blobs_truthful_example :
    (found : List Digest) × ((find_missing_blobs size_of cas settings three 0).0 ≡ ok found)
    × IsMissing absent three found
find_missing_blobs_truthful_example =
    find_missing_blobs_truthful size_of cas settings absent cas-IsTruthful three 0

-- Code 8 is `RESOURCE_EXHAUSTED`.
abbrev outcome : Digest → Status
outcome d = record { error_code = if absent d then 8 else ok_code; error_details = codes "quota" }

abbrev insert_by_size : UploadRequest → List UploadRequest → List UploadRequest
insert_by_size r [] = r ∷ []
insert_by_size r (x ∷ xs) =
    let rest = insert_by_size r xs in
    if leb r.digest.size_bytes x.digest.size_bytes then r ∷ x ∷ xs else x ∷ rest

abbrev sort : List UploadRequest → List UploadRequest
sort [] = []
sort (r ∷ rest) = insert_by_size r (sort rest)

abbrev backend : Backend
backend = record {
  World = ℕ;
  batch_update_blobs = λ entries w. (fine, answers outcome entries, w + 1);
  retry_info = λ details. none;
  file_contents = λ path w. some path;
  upload_request =
      λ r w. (if is_ok (outcome r.digest) then ok tt else grpc_error (outcome r.digest), w + 1);
  sort_by_size = sort;
}

backend-IsUniform : IsUniform outcome backend
backend-IsUniform = record {
  batch_ok = λ entries w. refl;
  batch_answers = λ entries w. refl;
  alone = λ r w. refl;
  reads = λ path w. (path, refl);
}

abbrev request_of : Digest → UploadRequest
request_of d = record { digest = d; data_bytes = []; path = codes "blob" }

abbrev uploads : List UploadRequest
uploads = request_of (sized 5000) ∷ request_of (sized 100) ∷ request_of (sized 200) ∷ []

upload_blobs-report_example :
    (upload_blobs backend settings 1256 uploads false 0).0
    ≡ ok (
        report_split outcome
          (batched outcome backend settings backend-IsUniform 1256 uploads)
          (sort uploads))
upload_blobs-report_example =
    upload_blobs-report outcome backend settings backend-IsUniform 1256 uploads 0 (omega arith)
      (omega arith) three-AreSmall
