-- ===== src/Client/Stream/Chunks.antt =====
-- Which requests an upload writes.
use buildbox_common.Prelude.{
  ℕ, zero, suc, ◌+◌, ◌≤◌, ◌<◌, ◌≡◌, refl, sym, ap, ◌∙◌, inl, inr, Bool, true, false, List, [], ◌∷◌,
  ◌++◌, arith, Text, text_eq, text_eq→eq, take, drop, length, length-append, take-append-drop,
  Bool-cases, if◌then◌else◌, All,
}
use buildbox_common.LogStream.{WriteRequest, ByteStream}
use buildbox_common.Client.Stream.{request_of, after_chunk, send_chunks}

-- Each request stands behind the one before it, and the last one alone finishes the write.
unfoldable pub Chunked : ℕ → List WriteRequest → Type 0
Chunked offset [] = ⊥
Chunked offset (r ∷ []) = (r.write_offset ≡ offset) × (r.finish_write ≡ true)
Chunked offset (r ∷ s ∷ rest) =
    (r.write_offset ≡ offset)
    × (r.finish_write ≡ false)
    × Chunked (offset + length r.data_bytes) (s ∷ rest)

-- The data of requests.
unfoldable pub contents : List WriteRequest → Text
contents [] = []
contents (r ∷ rest) = r.data_bytes ++ contents rest

module _ (B : ByteStream) where
  -- Writing requests until one is refused.
  unfoldable pub write_all : List WriteRequest → B.World → B.World
  write_all [] w = w
  write_all (r ∷ rest) w =
      let (accepted, w') = B.write_request r w in if accepted then write_all rest w' else w'

  length-take_le : (chunk : ℕ) (rest : Text) → length (take chunk rest) ≤ chunk
  length-take_le zero rest = omega arith
  length-take_le (suc chunk) [] = omega arith
  length-take_le (suc chunk) (c ∷ rest) = omega (arith, length-take_le chunk rest)

  length-drop_lt :
      (chunk : ℕ) (rest : Text)
      → 0 < chunk
      → text_eq (drop chunk rest) [] ≡ false
      → length (drop chunk rest) < length rest
  unfolding text_eq
  length-drop_lt zero rest p h = absurd (omega arith)
  length-drop_lt (suc chunk) [] p h = absurd cc
  length-drop_lt (suc chunk) (c ∷ rest) p h =
      let both =
        sym (length-append (take chunk rest) (drop chunk rest))
        ∙ ap length (take-append-drop chunk rest) in
      omega (arith, both)

  -- The requests of the loop.
  abbrev Sends : ℕ → ℕ → Text → (B.World → B.World) → Type 0
  Sends chunk offset rest send =
      (rs : List WriteRequest) × ((w : B.World) → send w ≡ write_all rs w)
      × (contents rs ≡ rest)
      × All (λ (r : WriteRequest). length r.data_bytes ≤ chunk) rs
      × Chunked offset rs

  after_chunk-last :
      (chunk : ℕ) (last : Bool) (go_on : B.World → B.World) (p : Bool × B.World)
      → last ≡ true
      → after_chunk B chunk last go_on p ≡ (if p.0 then p.1 else p.1)
  after_chunk-last chunk true go_on (false, w) e = refl
  after_chunk-last chunk true go_on (true, w) e = refl
  after_chunk-last chunk false go_on p e = absurd cc

  after_chunk-more :
      (chunk : ℕ) (last : Bool) (go_on : B.World → B.World) (p : Bool × B.World)
      → last ≡ false
      → after_chunk B chunk last go_on p ≡ (if p.0 then go_on p.1 else p.1)
  after_chunk-more chunk false go_on (false, w) e = refl
  after_chunk-more chunk false go_on (true, w) e = refl
  after_chunk-more chunk true go_on p e = absurd cc

  last-Sends :
      (chunk fuel : ℕ) (name : Text) (offset : ℕ) (rest : Text)
      → text_eq (drop chunk rest) [] ≡ true
      → Sends chunk offset rest (send_chunks B chunk (suc fuel) name offset rest)
  unfolding send_chunks write_all Chunked contents
  last-Sends chunk fuel name offset rest h = (
    request_of B chunk name offset rest ∷ [],
    λ w.
        after_chunk-last chunk _
          (send_chunks B chunk fuel name (offset + length (take chunk rest)) (drop chunk rest))
          (B.write_request (request_of B chunk name offset rest) w) h,
    ap (λ more. take chunk rest ++ more) (sym (text_eq→eq (drop chunk rest) [] h))
        ∙ take-append-drop chunk rest,
    (length-take_le chunk rest, tt),
    (refl, h),
  )

  more-Sends :
      (chunk fuel : ℕ) (name : Text) (offset : ℕ) (rest : Text)
      → text_eq (drop chunk rest) [] ≡ false
      → Sends chunk
          (offset + length (take chunk rest))
          (drop chunk rest)
          (send_chunks B chunk fuel name (offset + length (take chunk rest)) (drop chunk rest))
      → Sends chunk offset rest (send_chunks B chunk (suc fuel) name offset rest)
  unfolding send_chunks write_all Chunked contents
  more-Sends chunk fuel name offset rest h ([], same, all, sizes, chunked) = absurd chunked
  more-Sends chunk fuel name offset rest h (r ∷ rs, same, all, sizes, chunked) = (
    request_of B chunk name offset rest ∷ r ∷ rs,
    λ w.
        after_chunk-more chunk _
          (send_chunks B chunk fuel name (offset + length (take chunk rest)) (drop chunk rest))
          (B.write_request (request_of B chunk name offset rest) w) h
        ∙ ap
            (λ (v : B.World).
              if (B.write_request (request_of B chunk name offset rest) w).0
              then v
              else (B.write_request (request_of B chunk name offset rest) w).1)
            (same (B.write_request (request_of B chunk name offset rest) w).1),
    ap (λ more. take chunk rest ++ more) all ∙ take-append-drop chunk rest,
    (length-take_le chunk rest, sizes),
    (refl, h, chunked),
  )

  -- An upload of data writes, until one is refused, requests that together hold the data in order, none
  -- of them more than the size of a chunk, each at the offset where the one before it ends, and with
  -- the last one alone marked to finish the write; so does the upload of no data, with one request.
  -- The size of a chunk is not 0, and the fuel is more than the length of the data.
  pub send_chunks-Chunked :
      (chunk fuel : ℕ) (name : Text) (offset : ℕ) (rest : Text)
      → 0 < chunk
      → length rest < fuel
      → (rs : List WriteRequest) × ((w : B.World)
          → send_chunks B chunk fuel name offset rest w ≡ write_all rs w)
        × (contents rs ≡ rest)
        × All (λ (r : WriteRequest). length r.data_bytes ≤ chunk) rs
        × Chunked offset rs
  send_chunks-Chunked chunk zero name offset rest p l = absurd (omega arith)
  send_chunks-Chunked chunk (suc fuel) name offset rest p l =
      elim (Bool-cases (text_eq (drop chunk rest) [])) [
        | inl e ↦ last-Sends chunk fuel name offset rest e
        | inr e ↦ more-Sends chunk fuel name offset rest e (
            send_chunks-Chunked chunk fuel name (offset + length (take chunk rest))
              (drop chunk rest) p (omega (arith, length-drop_lt chunk rest p e)))
      ]
