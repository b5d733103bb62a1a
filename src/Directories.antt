-- ===== src/Directories.antt =====
-- The creation of directories by `FileUtils`
-- (buildbox-common/buildboxcommon/buildboxcommon_fileutils.cpp). The file system is the record `Disk`.
pub mod Texts
pub mod Made
use buildbox_common.Prelude.{ℕ, zero, suc, Option, none, some, Text, length}
use buildbox_common.Path.{cut_last, normalize_path, before_last}

-- What `mkdir` answers: 0, or -1 with EEXIST, ENOENT or another value of `errno`.
pub data MkdirAnswer : Type 0 where
  made eexist enoent : MkdirAnswer
  other_errno : ℕ → MkdirAnswer

pub record Disk : Type 1 where
  pub World : Type 0
  pub mkdir : Text → World → MkdirAnswer × World

-- `system_error` is the exception. `too_deep` is a recursion deeper than was allowed.
pub data Creation : Type 0 where
  created system_error too_deep : Creation

module _ (D : Disk) where
  -- The `mkdir` after the parent was created.
  abbrev pub after_last_mkdir : MkdirAnswer × D.World → Creation × D.World
  after_last_mkdir (made, w) = (created, w)
  after_last_mkdir (eexist, w) = (system_error, w)
  after_last_mkdir (enoent, w) = (system_error, w)
  after_last_mkdir (other_errno e, w) = (system_error, w)

  abbrev pub after_parent : Text → Creation × D.World → Creation × D.World
  after_parent path (created, w) = after_last_mkdir (D.mkdir path w)
  after_parent path (system_error, w) = (system_error, w)
  after_parent path (too_deep, w) = (too_deep, w)

  abbrev pub after_mkdir :
      Text → (D.World → Creation × D.World) → MkdirAnswer × D.World → Creation × D.World
  after_mkdir path parent (made, w) = (created, w)
  after_mkdir path parent (eexist, w) = (created, w)
  after_mkdir path parent (enoent, w) = after_parent path (parent w)
  after_mkdir path parent (other_errno e, w) = (system_error, w)

  -- `createDirectoriesInPath`, to a depth.
  unfoldable pub create_directories_in_path : ℕ → Text → D.World → Creation × D.World
  create_directories_in_path zero path w = (too_deep, w)
  create_directories_in_path (suc depth) path w =
      after_mkdir path (create_directories_in_path depth (before_last path)) (D.mkdir path w)

  -- `createDirectory`: a depth of the path's length is enough.
  unfoldable pub create_directory : Text → D.World → Creation × D.World
  create_directory path w =
      let normalized = normalize_path path in
      create_directories_in_path (length normalized) normalized w
