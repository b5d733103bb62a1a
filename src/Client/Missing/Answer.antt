-- ===== src/Client/Missing/Answer.antt =====
-- What `findMissingBlobs` returns when the server answers each request truthfully.
use mathlib.Core.List.{Memᴰ}
use mathlib.Core.List.Memᴰ
use mathlib.Core.Logic.{◌↔◌}
use buildbox_common.Prelude.{
  ℕ, ◌≡◌, sym, ap, subst, ◌∙◌, inl, inr, Bool, true, List, [], ◌∷◌, ◌++◌, append_assoc, append-nil,
}
use buildbox_common.Digest.{Digest}
use buildbox_common.Retrier.{is_ok}
use buildbox_common.Client.Requests.{Attempt, ok, Settings, issue_ok}
use buildbox_common.Client.Missing.{
  MissingStub, missing_service, after_request, issue_all, requests_to_issue, find_missing_blobs,
}
use buildbox_common.Client.Missing.Sizes.{concat, requests-concat}

module _ (absent : Digest → Bool) where
  -- `found` holds those of the digests that are absent and nothing else, in any order and any number of
  -- times.
  abbrev pub IsMissing : List Digest → List Digest → Type 0
  IsMissing ds found = (d : Digest) → Memᴰ d found ↔ (Memᴰ d ds × (absent d ≡ true))

  IsMissing-nil : IsMissing [] []
  IsMissing-nil d = (λ m. absurd (Memᴰ.not-nil m), λ m. m.0)

  IsMissing-append :
      (xs ys found more : List Digest)
      → IsMissing xs found
      → IsMissing ys more
      → IsMissing (xs ++ ys) (found ++ more)
  IsMissing-append xs ys found more f g d = (
    λ m. elim (Memᴰ.append_cases found m) [
      | inl here ↦ let (asked, lacks) = (f d).0 here in (Memᴰ.append_left ys asked, lacks)
      | inr there ↦ let (asked, lacks) = (g d).0 there in (Memᴰ.append_right xs asked, lacks)
    ],
    λ m. elim (Memᴰ.append_cases xs m.0) [
      | inl here ↦ Memᴰ.append_left more ((f d).1 (here, m.1))
      | inr there ↦ Memᴰ.append_right found ((g d).1 (there, m.1))
    ],
  )

module _ (byte_size : Digest → ℕ) (B : MissingStub byte_size) (c : Settings) where
  -- The server answers OK, with those of the digests asked for that are absent, as the protocol says, which
  -- says nothing of their order.
  pub record IsTruthful (absent : Digest → Bool) : Type 0 where
    pub answers_ok : (ds : List Digest) (w : B.World) → is_ok (B.find_missing ds w).0 ≡ true
    pub answers : (ds : List Digest) (w : B.World) → IsMissing absent ds (B.find_missing ds w).1

  issue_one :
      (absent : Digest → Bool) (T : IsTruthful absent) (request : List Digest)
      (rest : List (List Digest)) (missing : List Digest) (w : B.World)
      → issue_all byte_size B c (request ∷ rest) missing w
        ≡ issue_all byte_size B c rest
            (missing ++ (B.find_missing request w).1)
            (B.find_missing request w).2
  unfolding issue_all
  issue_one absent T request rest missing w =
      ap
        (λ (r : Attempt (Unit {0}) × (List Digest × B.World)).
          after_request byte_size B c (issue_all byte_size B c rest) missing (r.0, r.1.0, r.1.1))
        (issue_ok (missing_service byte_size B c request) c ([], w) (T.answers_ok request w))

  issue_all-concat :
      (absent : Digest → Bool) (T : IsTruthful absent) (requests : List (List Digest))
      (missing : List Digest) (w : B.World)
      → (found : List Digest) × ((issue_all byte_size B c requests missing w).0
          ≡ ok (missing ++ found))
        × IsMissing absent (concat requests) found
  issue_all-concat absent T [] missing w =
      ([], unfold issue_all in ap ok (sym (append-nil missing)), IsMissing-nil absent)
  issue_all-concat absent T (request ∷ rest) missing w =
      let (status, first, w') = B.find_missing request w in
      let (found, same, is) = issue_all-concat absent T rest (missing ++ first) w' in
      (
        first ++ found,
        ap (λ r. r.0) (issue_one absent T request rest missing w)
            ∙ (same ∙ ap ok (append_assoc missing first found)),
        IsMissing-append absent request (concat rest) first found (T.answers request w) is,
      )

  -- From a server that answers each request with OK and with the digests of that request that it lacks,
  -- in any order and any number of times, `findMissingBlobs` returns a list that holds a digest exactly
  -- if it is one of the given digests and the server lacks it, however they are split over requests.
  pub find_missing_blobs_truthful :
      (absent : Digest → Bool)
      → IsTruthful absent
      → (ds : List Digest) (w : B.World)
      → (found : List Digest) × ((find_missing_blobs byte_size B c ds w).0 ≡ ok found)
        × IsMissing absent ds found
  unfolding find_missing_blobs
  find_missing_blobs_truthful absent T ds w =
      let (found, same, is) = issue_all-concat absent T (requests_to_issue byte_size ds) [] w in
      (found, same, subst (λ l. IsMissing absent l found) (requests-concat byte_size ds) is)
