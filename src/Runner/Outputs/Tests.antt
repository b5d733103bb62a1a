-- ===== src/Runner/Outputs/Tests.antt =====
-- Two files of output and a server that refuses one of them, and a disk.
use buildbox_common.Prelude.{
  ℕ, suc, ◌+◌, ◌≡◌, refl, ap, Bool, true, false, List, [], ◌∷◌, Option, none, some, if◌then◌else◌,
  leb, arith, Text, codes, length, text_eq,
}
use buildbox_common.Digest.{Digest}
use buildbox_common.Path.Normal.{IsNormal, segments_of}
use buildbox_common.Path.Print.{segments_of-print}
use buildbox_common.Retrier.{Status, ok_code, is_ok}
use buildbox_common.Client.Requests.{ok, grpc_error, Settings}
use buildbox_common.Client.Upload.{UploadRequest, Backend}
use buildbox_common.Client.Upload.Answer.{answers}
use buildbox_common.Directories.{MkdirAnswer, made, eexist, enoent, Disk}
use buildbox_common.Directories.Texts.{text_of}
use buildbox_common.Directories.Made.{IsOpen}
use buildbox_common.Runner.{Command}
use buildbox_common.Runner.Outputs.{no_digest, upload_outputs, create_output_directories}
use buildbox_common.Runner.Outputs.Parents.{AllMade, outputs_of, create_output_directories-AllMade}

abbrev settings : Settings
settings = record { grpc_retry_limit = 1; grpc_retry_delay = 100 }

-- Code 8 is `RESOURCE_EXHAUSTED`, for blobs of ten bytes or more.
abbrev outcome : Digest → Status
outcome d = record { error_code = if leb 10 d.size_bytes then 8 else ok_code; error_details = [] }

abbrev backend : Backend
backend = record {
  World = ℕ;
  batch_update_blobs = λ entries w.
      (record { error_code = ok_code; error_details = [] }, answers outcome entries, w + 1);
  retry_info = λ details. none;
  file_contents = λ path w. some path;
  upload_request =
      λ r w. (if is_ok (outcome r.digest) then ok tt else grpc_error (outcome r.digest), w + 1);
  sort_by_size = λ requests. requests;
}

-- The hash of a file is its path, and its size as well.
abbrev hash_file : Text → ℕ → Option Digest
hash_file path w = some (record { hash_other = path; size_bytes = length path })

abbrev digest_of : Text → Digest
digest_of path = record { hash_other = path; size_bytes = length path }

second_fails :
    (upload_outputs backend settings 1256 hash_file (codes "out") (codes "long-stderr") 0).0
    ≡ ok (digest_of (codes "out"), no_digest)
unfolding upload_outputs buildbox_common.Client.Upload.upload_blobs
    buildbox_common.Client.Batches.make_batches
    buildbox_common.Client.Requests.issue_request_and_throw_on_errors
    buildbox_common.Retrier.issue_request buildbox_common.Runner.Outputs.clear_failed
    buildbox_common.Digest.digest_eq text_eq
second_fails = refl

-- Two files with the same contents that fail.
same_digests_fail :
    (upload_outputs backend settings 1256
      (λ path w. some (digest_of (codes "same-contents")))
      (codes "out")
      (codes "err")
      0).0
    ≡ ok (no_digest, no_digest)
unfolding upload_outputs buildbox_common.Client.Upload.upload_blobs
    buildbox_common.Client.Batches.make_batches
    buildbox_common.Client.Requests.issue_request_and_throw_on_errors
    buildbox_common.Retrier.issue_request buildbox_common.Runner.Outputs.clear_failed
    buildbox_common.Digest.digest_eq text_eq
same_digests_fail = refl

abbrev command : Command
command = record {
  arguments = codes "/bin/true" ∷ [];
  output_files = codes "logs/build/all" ∷ (codes "done" ∷ []);
  output_directories = codes "gen/include" ∷ [];
  output_paths = [];
  working_directory = [];
}

-- A disk whose directories go to the depth that the world says.
abbrev mkdir_at : ℕ → ℕ → MkdirAnswer × ℕ
mkdir_at depth w =
    if leb depth w then (eexist, w) else if leb depth (suc w) then (made, suc w) else (enoent, w)

abbrev disk : Disk
disk = record { World = ℕ; mkdir = λ path w. mkdir_at (length (segments_of path)) w }

abbrev reaches : Bool → List Text → ℕ → Bool
reaches global stack w = leb (length stack) w

depth_of :
    (global : Bool) (stack : List Text)
    → IsNormal global stack
    → length (segments_of (text_of global stack)) ≡ length stack
depth_of global stack n = ap length (segments_of-print global stack n).1

at_depth :
    (depth k w : ℕ)
    → depth ≡ suc k
    → (mkdir_at depth w).0 ≡ (if leb (suc k) w then eexist else if leb k w then made else enoent)
at_depth depth k w e = rw e (ground arith)

made_depth :
    (depth k w : ℕ)
    → depth ≡ k
    → (mkdir_at depth w).0 ≡ made
    → (leb k (mkdir_at depth w).1 ≡ true) × (leb (suc k) (mkdir_at depth w).1 ≡ false)
made_depth depth k w e h = ground arith

made_at :
    (global : Bool) (stack : List Text) (w : ℕ)
    → IsNormal global stack
    → (disk.mkdir (text_of global stack) w).0 ≡ made
    → (leb (length stack) (disk.mkdir (text_of global stack) w).1 ≡ true)
      × (leb (suc (length stack)) (disk.mkdir (text_of global stack) w).1 ≡ false)
made_at global stack w n e =
    made_depth (length (segments_of (text_of global stack))) (length stack) w
      (depth_of global stack n) e

disk-IsOpen : IsOpen disk reaches
disk-IsOpen = record {
  top = λ global w. ground arith;
  at_top = λ global w. rw (depth_of global [] tt) (ground arith);
  answers = λ global s stack w n.
      at_depth (length (segments_of (text_of global (s ∷ stack)))) (length stack) w
        (depth_of global (s ∷ stack) n);
  unchanged = λ path w e. ground arith;
  stays = λ path global stack w h. ground arith;
  makes = λ global stack w n e. (made_at global stack w n e).0;
  new_is_empty = λ global s stack w n e. (made_at global stack w n.4 e).1;
}

create_output_directories-AllMade_example :
    AllMade disk reaches
      (codes "work")
      (outputs_of command)
      0
      (create_output_directories disk command (codes "work") 0)
create_output_directories-AllMade_example =
    create_output_directories-AllMade disk reaches disk-IsOpen (codes "work") command 0
