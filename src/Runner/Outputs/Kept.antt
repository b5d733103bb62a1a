-- ===== src/Runner/Outputs/Kept.antt =====
-- The digests that `uploadOutputs` returns.
use buildbox_common.Prelude.{if◌then◌else◌}
use buildbox_common.Digest.{Digest}
use buildbox_common.Retrier.{Status, is_ok}
use buildbox_common.Runner.Outputs.{no_digest}

module _ (outcome : Digest → Status) where
  -- The digest, or none if its blob failed.
  abbrev pub kept : Digest → Digest
  kept d = if is_ok (outcome d) then d else no_digest
