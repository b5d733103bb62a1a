-- ===== src/Client/Batches.antt =====
-- `Client::makeBatches`: the ranges of the sorted digests that fit one request each.
pub mod Greedy
use buildbox_common.Prelude.{
  ℕ, zero, suc, ◌+◌, ◌-◌, ◌%◌, ◌^◌, Bool, List, [], ◌∷◌, ◌++◌, ltb, leb, if◌then◌else◌, length,
}
use buildbox_common.Digest.{Digest}

-- `size_t` is 64 bits wide.
abbrev pub size_mod : ℕ
size_mod = 2 ^ 64

abbrev pub add_size : ℕ → ℕ → ℕ
add_size a b = (a + b) % size_mod

abbrev pub container_size : ℕ
container_size = 256

abbrev pub metadata_size : ℕ
metadata_size = 256

-- `d_maxBatchTotalSizeBytes - SIZEOF_ESTIMATED_TOP_LEVEL_GRPC_CONTAINER`
unfoldable pub max_batch_size : ℕ → ℕ
max_batch_size max_total = (max_total + size_mod - container_size) % size_mod

-- The inner loop, over the digests from `batch_end` on. It returns the new `batch_end` and the digests
-- from there on.
pub fill_batch : ℕ → ℕ → ℕ → List Digest → ℕ × List Digest
fill_batch max_size bytes_in_batch batch_end [] = (batch_end, [])
fill_batch max_size bytes_in_batch batch_end (d ∷ ds) =
    let more = add_size bytes_in_batch (add_size d.size_bytes metadata_size) in
    let rest = fill_batch max_size more (batch_end + 1) ds in
    if leb more max_size then rest else (batch_end, d ∷ ds)

-- The outer loop. At its head `batch_start` and `batch_end` are equal.
pub batch_loop : ℕ → ℕ → ℕ → List Digest → List (ℕ × ℕ) → List (ℕ × ℕ)
batch_loop zero max_size batch_start rest batches = batches
batch_loop (suc fuel) max_size batch_start [] batches = batches
batch_loop (suc fuel) max_size batch_start (d ∷ ds) batches =
    let (batch_end, rest) = fill_batch max_size 0 batch_start (d ∷ ds) in
    let next =
      batch_loop fuel max_size batch_end rest (batches ++ ((batch_start, batch_end) ∷ [])) in
    if ltb max_size (add_size d.size_bytes metadata_size) then batches else next

-- `makeBatches`, with `d_maxBatchTotalSizeBytes` for an argument. Each round takes a digest at least.
unfoldable pub make_batches : ℕ → List Digest → List (ℕ × ℕ)
unfolding batch_loop fill_batch max_batch_size
make_batches max_total digests = batch_loop (length digests) (max_batch_size max_total) 0 digests []
