-- ===== src/Composition/Publisher/Unreadable.antt =====
-- src/composition/publisher.rs, src/composition/layer_chain.rs: what reads a mount by its name or a
-- publication fails, since the times of no row can be read.
use tarbox.Base.{Option, none, some}
use tarbox.Path.{FsError, storage}
use tarbox.Storage.Models.{MountRow, mismatched_types}
use tarbox.Composition.Publisher.{mount_not_found}

-- The error for a mount that is there, or that is missing.
abbrev pub reading_error : Option MountRow → FsError
reading_error none = storage mount_not_found
reading_error (some r) = mismatched_types
