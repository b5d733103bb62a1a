-- ===== src/Client/Missing/Sizes.antt =====
-- How `findMissingBlobs` splits its digests over requests.
use buildbox_common.Prelude.{
  ℕ, ◌+◌, ◌≤◌, ◌<◌, ◌≡◌, refl, sym, ap, ◌∙◌, inl, inr, true, false, List, [], ◌∷◌, ◌++◌,
  append_assoc, append-nil, arith, ltb, Bool-cases, All, All-append,
}
use buildbox_common.Digest.{Digest}
use buildbox_common.Client.Missing.{chunk_size, split_requests, requests_to_issue, bytes}

abbrev pub concat : List (List Digest) → List Digest
concat [] = []
concat (xs ∷ rest) = xs ++ concat rest

pub concat-append : (xs ys : List (List Digest)) → concat (xs ++ ys) ≡ concat xs ++ concat ys
concat-append [] ys = refl
concat-append (x ∷ xs) ys =
    ap (λ l. x ++ l) (concat-append xs ys) ∙ sym (append_assoc x (concat xs) (concat ys))

module _ (byte_size : Digest → ℕ) where
  split-concat :
      (n : ℕ) (request : List Digest) (done : List (List Digest)) (ds : List Digest)
      → concat (split_requests byte_size n request done ds) ≡ concat done ++ (request ++ ds)
  unfolding split_requests
  split-concat n request done [] = concat-append done (request ∷ [])
  split-concat n request done (d ∷ ds) = elim (Bool-cases (ltb chunk_size (n + byte_size d))) [
    | inl full ↦ rw full (
        split-concat 0 (d ∷ []) (done ++ (request ∷ [])) ds
        ∙ rw (concat-append done (request ∷ []))
            (rw append-nil (append_assoc (concat done) request (d ∷ ds))))
    | inr room ↦ rw room (
        split-concat (n + byte_size d) (request ++ (d ∷ [])) done ds
        ∙ ap (λ l. concat done ++ l) (append_assoc request (d ∷ []) ds))
  ]

  -- The requests hold the given digests, each once and in order.
  pub requests-concat : (ds : List Digest) → concat (requests_to_issue byte_size ds) ≡ ds
  unfolding requests_to_issue
  requests-concat ds = split-concat 0 [] [] ds

  -- Without its first digest the request stays within the limit.
  abbrev pub IsBounded : List Digest → Type 0
  IsBounded [] = Unit
  IsBounded (d ∷ ds) = bytes byte_size ds ≤ chunk_size

  -- The count covers what stands behind the first digest.
  abbrev Counts : ℕ → List Digest → Type 0
  Counts n [] = Unit
  Counts n (d ∷ ds) = bytes byte_size ds ≤ n

  bytes-concat :
      (ds : List Digest) (d : Digest)
      → bytes byte_size (ds ++ d ∷ []) ≡ bytes byte_size ds + byte_size d
  bytes-concat [] d = omega arith
  bytes-concat (x ∷ ds) d = omega (arith, bytes-concat ds d)

  Counts-concat :
      (n : ℕ) (ds : List Digest) (d : Digest)
      → Counts n ds
      → Counts (n + byte_size d) (ds ++ d ∷ [])
  Counts-concat n [] d h = omega arith
  Counts-concat n (x ∷ ds) d h = omega (arith, bytes-concat ds d)

  Counts-IsBounded : (n : ℕ) (ds : List Digest) → n ≤ chunk_size → Counts n ds → IsBounded ds
  Counts-IsBounded n [] k h = tt
  Counts-IsBounded n (x ∷ ds) k h = omega arith

  split-IsBounded :
      (n : ℕ) (request : List Digest) (done : List (List Digest)) (ds : List Digest)
      → n ≤ chunk_size
      → Counts n request
      → All IsBounded done
      → All IsBounded (split_requests byte_size n request done ds)
  unfolding split_requests
  split-IsBounded n request done [] k h a =
      All-append IsBounded done (request ∷ []) a (Counts-IsBounded n request k h, tt)
  split-IsBounded n request done (d ∷ ds) k h a =
      elim (Bool-cases (ltb chunk_size (n + byte_size d))) [
        | inl full ↦ rw full (
            split-IsBounded 0 (d ∷ []) (done ++ (request ∷ [])) ds (omega arith) (omega arith)
              (All-append IsBounded done (request ∷ []) a (Counts-IsBounded n request k h, tt)))
        | inr room ↦ rw room (
            split-IsBounded (n + byte_size d) (request ++ (d ∷ [])) done ds (ground arith)
              (Counts-concat n request d h) a)
      ]

  -- The digests of each request, all but its first, take at most `bytestreamChunkSizeBytes()` bytes.
  pub requests-IsBounded : (ds : List Digest) → All IsBounded (requests_to_issue byte_size ds)
  unfolding requests_to_issue
  requests-IsBounded ds = split-IsBounded 0 [] [] ds (omega arith) tt tt

  step_room :
      (n : ℕ) (request : List Digest) (done : List (List Digest)) (d : Digest) (ds : List Digest)
      → n + byte_size d ≤ chunk_size
      → split_requests byte_size n request done (d ∷ ds)
        ≡ split_requests byte_size (n + byte_size d) (request ++ d ∷ []) done ds
  unfolding split_requests
  step_room n request done d ds h =
      let room : ltb chunk_size (n + byte_size d) ≡ false = ground arith in
      rw (room, split_requests)

  step_full :
      (n : ℕ) (request : List Digest) (done : List (List Digest)) (d : Digest) (ds : List Digest)
      → chunk_size < n + byte_size d
      → split_requests byte_size n request done (d ∷ ds)
        ≡ split_requests byte_size 0 (d ∷ []) (done ++ request ∷ []) ds
  unfolding split_requests
  step_full n request done d ds h =
      let full : ltb chunk_size (n + byte_size d) ≡ true = ground arith in rw (full, split_requests)

  split_room :
      (n m : ℕ) (request : List Digest) (done : List (List Digest)) (ds more : List Digest)
      → n + bytes byte_size ds ≡ m
      → m ≤ chunk_size
      → split_requests byte_size n request done (ds ++ more)
        ≡ split_requests byte_size m (request ++ ds) done more
  split_room n m request done [] more e h =
      let same : n ≡ m = omega arith in rw (same, append-nil request)
  split_room n m request done (d ∷ ds) more e h =
      step_room n request done d (ds ++ more) (omega arith)
      ∙ (split_room (n + byte_size d) m (request ++ d ∷ []) done ds more (omega arith) h
          ∙ ap (λ l. split_requests byte_size m l done more) (append_assoc request (d ∷ []) ds))

  -- The digest that opens a new request is not counted: digests that fill the limit by themselves
  -- still join it in that request, which is then over the limit by the size of the first.
  pub requests_over_limit :
      (ds es : List Digest) (d : Digest)
      → bytes byte_size ds ≤ chunk_size
      → chunk_size < bytes byte_size ds + byte_size d
      → bytes byte_size es ≡ chunk_size
      → (requests_to_issue byte_size (ds ++ d ∷ es) ≡ ds ∷ (d ∷ es) ∷ [])
        × (bytes byte_size (d ∷ es) ≡ chunk_size + byte_size d)
  unfolding requests_to_issue
  requests_over_limit ds es d h k e = (
    split_room 0 (bytes byte_size ds) [] [] ds (d ∷ es) (omega arith) h
        ∙ (step_full (bytes byte_size ds) ds [] d es k
            ∙ (ap (split_requests byte_size 0 (d ∷ []) (ds ∷ [])) (sym (append-nil es))
                ∙ (split_room 0 chunk_size (d ∷ []) (ds ∷ []) es [] (omega arith) (omega arith)
                    ∙ unfold split_requests in refl))),
    omega arith,
  )
