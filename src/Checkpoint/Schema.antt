-- ===== src/Checkpoint/Schema.antt =====
-- packages/core/src/checkpoint.ts: `checkpointSchema`, over a checkpoint whose members have been read.
use sigillo.Common.{Bool, ◌&&◌, leb}
use sigillo.Platform.{Platform}
use sigillo.Checkpoint.{UnsignedCheckpoint, Checkpoint}
use sigillo.Receipt.Schema.{sized, hex_string, max_system_id, is_iso_timestamp, valid_signature}

module _ (p : Platform) where
  unfoldable pub valid_unsigned_checkpoint : UnsignedCheckpoint → Bool
  valid_unsigned_checkpoint c =
      sized max_system_id c.system_id
      && leb 1 c.tree_size
      && hex_string 64 c.root_hash
      && is_iso_timestamp p c.ts
      && hex_string 16 c.key_id

  unfoldable pub valid_checkpoint : Checkpoint → Bool
  unfolding valid_unsigned_checkpoint
  valid_checkpoint c = valid_unsigned_checkpoint c.unsigned && valid_signature p c.sig
