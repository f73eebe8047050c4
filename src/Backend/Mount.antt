-- ===== src/Backend/Mount.antt =====
-- celily-lib/src/mount.rs: a bind mount of a host path.
use celily.Prelude.Text.{Text}
use celily.Paths.{FilePath}

pub data AccessMode : Type 0 where
  read_only read_write : AccessMode

-- A mount as it is written, in the configuration or in an argument.
pub record WrittenMount : Type 0 where
  pub source : Text
  pub target : Text
  pub access : AccessMode

pub record Mount : Type 0 where
  pub source : FilePath
  pub target : FilePath
  pub access : AccessMode
