-- ===== src/Client/Batches/Greedy.antt =====
-- The batches partition a prefix of the list, none is too large and each is as long as it can be.
use buildbox_common.Prelude.{
  ℕ, zero, suc, ◌+◌, ◌-◌, ◌^◌, ◌≤◌, ◌<◌, ◌≡◌, refl, sym, ap, subst, ◌∙◌, inl, inr, true, false,
  List, [], ◌∷◌, ◌++◌, append_assoc, append-nil, arith, ltb, leb, Bool-cases, length, take, drop,
  All,
}
use buildbox_common.Digest.{Digest}
use buildbox_common.Client.Batches.{
  add_size, metadata_size, container_size, max_batch_size, fill_batch, batch_loop, make_batches,
}

-- The estimated size of a request for the digests.
abbrev pub total : List Digest → ℕ
total [] = 0
total (d ∷ ds) = (d.size_bytes + metadata_size) + total ds

-- No sum of the loops wraps: each size is below 2^62.
abbrev pub AreSmall : List Digest → Type 0
AreSmall = All (λ (d : Digest). d.size_bytes < 2 ^ 62)

-- The next digest, if there is one, does not fit on top of `used` bytes.
abbrev pub Stops : ℕ → ℕ → List Digest → Type 0
Stops max_size used [] = Unit
Stops max_size used (d ∷ ds) = max_size < used + (d.size_bytes + metadata_size)

-- What `fill_batch` does from `used` bytes: it takes `n` digests.
record Filled (max_size used start : ℕ) (ds : List Digest) (r : ℕ × List Digest) : Type 0 where
  n : ℕ
  ends : r.0 ≡ start + n
  within : n ≤ length ds
  rest : r.1 ≡ drop n ds
  fits : used + total (take n ds) ≤ max_size
  stops : Stops max_size (used + total (take n ds)) (drop n ds)

fill-Filled :
    (max_size used start : ℕ) (ds : List Digest)
    → max_size < 2 ^ 62
    → used ≤ max_size
    → AreSmall ds
    → Filled max_size used start ds (fill_batch max_size used start ds)
unfolding fill_batch
fill-Filled max_size used start [] m u s = record {
  n = 0;
  ends = omega arith;
  within = omega arith;
  rest = refl;
  fits = omega arith;
  stops = tt;
}
fill-Filled max_size used start (d ∷ ds) m u s =
    let more = add_size used (add_size d.size_bytes metadata_size) in
    let exact : more ≡ used + (d.size_bytes + metadata_size) = omega (arith, s.0) in
    elim (Bool-cases (leb more max_size)) [
      | inl fits ↦
          let ih = fill-Filled max_size more (start + 1) ds m (ground arith) s.1 in
          let shift : more + total (take ih.n ds)
              ≡ used + ((d.size_bytes + metadata_size) + total (take ih.n ds)) =
            omega arith in
          rw fits (record {
            n = suc ih.n;
            ends = omega (arith, ih.ends);
            within = omega (arith, ih.within);
            rest = ih.rest;
            fits = omega (arith, ih.fits);
            stops = subst (λ t. Stops max_size t (drop ih.n ds)) shift ih.stops;
          })
      | inr stops ↦ rw stops (record {
        n = 0;
        ends = omega arith;
        within = omega arith;
        rest = refl;
        fits = omega arith;
        stops = ground arith;
      })
    ]

-- The batches, as lengths, cut up `rest`, which begins at index `start`. Each has a digest at least and
-- fits, and the digest after it would not have fitted. They go on to the end of the list or to a
-- digest that is too large for any batch.
abbrev pub Partition : ℕ → ℕ → List Digest → List (ℕ × ℕ) → Type 0
Partition max_size start rest [] = Stops max_size 0 rest
Partition max_size start rest ((a, b) ∷ more) =
    (n : ℕ) × (a ≡ start)
    × (b ≡ start + n)
    × (0 < n)
    × (n ≤ length rest)
    × (total (take n rest) ≤ max_size)
    × Stops max_size (total (take n rest)) (drop n rest)
    × Partition max_size b (drop n rest) more

loop-append :
    (fuel max_size start : ℕ) (rest : List Digest) (batches : List (ℕ × ℕ))
    → batch_loop fuel max_size start rest batches
      ≡ batches ++ batch_loop fuel max_size start rest []
unfolding batch_loop
loop-append zero max_size start rest batches = sym (append-nil batches)
loop-append (suc fuel) max_size start [] batches = sym (append-nil batches)
loop-append (suc fuel) max_size start (d ∷ ds) batches =
    let (b, rest) = fill_batch max_size 0 start (d ∷ ds) in
    let one : List (ℕ × ℕ) = (start, b) ∷ [] in
    ground (
      arith,
      loop-append fuel max_size b rest (batches ++ one),
      loop-append fuel max_size b rest one,
      append_assoc batches one (batch_loop fuel max_size b rest []),
      append-nil batches,
    )

length-drop-le : (n : ℕ) (ds : List Digest) → 0 < n → n ≤ length ds → length (drop n ds) < length ds
length-drop-le zero ds h k = absurd (omega arith)
length-drop-le (suc n) [] h k = absurd (omega arith)
length-drop-le (suc zero) (d ∷ ds) h k = omega arith
length-drop-le (suc (suc n)) (d ∷ ds) h k = omega (arith, length-drop-le (suc n) ds)

drop-AreSmall : (n : ℕ) (ds : List Digest) → AreSmall ds → AreSmall (drop n ds)
drop-AreSmall zero ds s = s
drop-AreSmall (suc n) [] s = tt
drop-AreSmall (suc n) (d ∷ ds) s = drop-AreSmall n ds s.1

positive :
    (max_size : ℕ) (d : Digest) (ds : List Digest)
    → (d.size_bytes + metadata_size ≤ max_size)
    → (n : ℕ) → Stops max_size (0 + total (take n (d ∷ ds))) (drop n (d ∷ ds))
    → 0 < n
positive max_size d ds fits zero h = absurd (omega arith)
positive max_size d ds fits (suc n) h = omega arith

-- One round of the outer loop, on a digest that fits.
round-Partition :
    (fuel max_size start : ℕ) (d : Digest) (ds : List Digest)
    → (F : Filled max_size 0 start (d ∷ ds) (fill_batch max_size 0 start (d ∷ ds)))
    → (d.size_bytes + metadata_size ≤ max_size)
    → (more : List (ℕ × ℕ))
    → Partition max_size
        (fill_batch max_size 0 start (d ∷ ds)).0
        (fill_batch max_size 0 start (d ∷ ds)).1
        more
    → Partition max_size start (d ∷ ds) ((start, (fill_batch max_size 0 start (d ∷ ds)).0) ∷ more)
round-Partition fuel max_size start d ds F fits more ih = (
  F.n,
  refl,
  F.ends,
  positive max_size d ds fits F.n F.stops,
  F.within,
  omega (arith, F.fits),
  subst (λ t. Stops max_size t (drop F.n (d ∷ ds))) (omega arith) F.stops,
  subst (λ l. Partition max_size (fill_batch max_size 0 start (d ∷ ds)).0 l more) F.rest ih,
)

loop-Partition :
    (fuel max_size start : ℕ) (rest : List Digest)
    → max_size < 2 ^ 62
    → AreSmall rest
    → length rest ≤ fuel
    → Partition max_size start rest (batch_loop fuel max_size start rest [])
unfolding batch_loop
loop-Partition zero max_size start [] m s h = tt
loop-Partition zero max_size start (d ∷ ds) m s h = absurd (omega arith)
loop-Partition (suc fuel) max_size start [] m s h = tt
loop-Partition (suc fuel) max_size start (d ∷ ds) m s h =
    let F = fill-Filled max_size 0 start (d ∷ ds) m (omega arith) s in
    let r = fill_batch max_size 0 start (d ∷ ds) in
    let exact : add_size d.size_bytes metadata_size ≡ d.size_bytes + metadata_size =
      omega (arith, s.0) in
    elim (Bool-cases (ltb max_size (add_size d.size_bytes metadata_size))) [
      | inl large ↦ rw large (ground arith)
      | inr fits ↦
          let n_pos = positive max_size d ds (ground arith) F.n F.stops in
          let shorter = length-drop-le F.n (d ∷ ds) n_pos F.within in
          let ih =
            loop-Partition fuel max_size r.0 r.1 m
              (subst AreSmall (sym F.rest) (drop-AreSmall F.n (d ∷ ds) s))
              (omega (arith, shorter, ap length F.rest)) in
          let whole =
            round-Partition fuel max_size start d ds F (ground arith)
              (batch_loop fuel max_size r.0 r.1 []) in
          rw fits (rw (loop-append fuel max_size r.0 r.1 ((start, r.0) ∷ [])) (whole ih))
    ]

-- For a limit from 256 bytes up and below 2^62, and digests whose sizes are each below 2^62, the batches cut up a prefix of the digests, in order and with no gap:
-- each has a digest at least, its estimated size is within the limit, and the next digest would have
-- taken it over the limit. They stop at the end or at a digest that is too large for a batch of its own.
pub make_batches-Partition :
    (max_total : ℕ) (digests : List Digest)
    → 256 ≤ max_total
    → max_total < 2 ^ 62
    → AreSmall digests
    → Partition (max_total - container_size) 0 digests (make_batches max_total digests)
unfolding make_batches
make_batches-Partition max_total digests h k s =
    let exact : max_batch_size max_total ≡ max_total - container_size =
      unfold max_batch_size in omega arith in
    rw (← exact) (
      loop-Partition (length digests) (max_batch_size max_total) 0 digests (omega (arith, exact)) s
        (omega arith))

fill-all :
    (max_size used start : ℕ) (ds : List Digest)
    → 2 ^ 63 ≤ max_size
    → used + total ds < 2 ^ 62
    → (b : ℕ) × (b ≡ start + length ds) × (fill_batch max_size used start ds ≡ (b, []))
unfolding fill_batch
fill-all max_size used start [] m h = (start, omega arith, refl)
fill-all max_size used start (d ∷ ds) m h =
    let more = add_size used (add_size d.size_bytes metadata_size) in
    let (b, e, all) = fill-all max_size more (start + 1) ds m (omega arith) in
    let fits : leb more max_size ≡ true = ground arith in (b, omega arith, rw (fits, all))

loop-nil :
    (fuel max_size start : ℕ) (batches : List (ℕ × ℕ))
    → batch_loop fuel max_size start [] batches ≡ batches
unfolding batch_loop
loop-nil zero max_size start batches = refl
loop-nil (suc fuel) max_size start batches = refl

round_wraps :
    (fuel max_size : ℕ) (d : Digest) (ds : List Digest)
    → 2 ^ 63 ≤ max_size
    → total (d ∷ ds) < 2 ^ 62
    → batch_loop (suc fuel) max_size 0 (d ∷ ds) [] ≡ (0, suc (length ds)) ∷ []
unfolding batch_loop
round_wraps fuel max_size d ds m h =
    let (b, e, all) = fill-all max_size 0 0 (d ∷ ds) m (omega arith) in
    let fits : ltb max_size (add_size d.size_bytes metadata_size) ≡ false = ground arith in
    let count : b ≡ suc (length ds) = omega arith in
    rw (fits, all) (loop-nil fuel max_size b ((0, b) ∷ []) ∙ rw count)

-- Below 256 bytes the limit wraps round: where the digests take less than 2^62 bytes in all, they are
-- put in one batch, whatever the limit.
pub make_batches_wraps :
    (max_total : ℕ) (d : Digest) (digests : List Digest)
    → max_total < 256
    → total (d ∷ digests) < 2 ^ 62
    → make_batches max_total (d ∷ digests) ≡ (0, suc (length digests)) ∷ []
unfolding make_batches
make_batches_wraps max_total d digests h k =
    round_wraps (length digests) (max_batch_size max_total) d digests
      (unfold max_batch_size in omega arith) k
