-- ===== src/Prelude/Saving.antt =====
-- What a call of Bundle.Save or Checkpoint.Save does to its file (internal/bundle/write.go,
-- internal/acquisition/checkpoint.go): the directory is synchronised after the rename, so that an error
-- is returned with the old file or with the new one in place.

pub data Saving : Type 0 where
  saved : Saving
  kept_old : Saving
  replaced_unsynced : Saving
