-- ===== src/Layer/Hooks/Writing/Switching.antt =====
-- Writes to the control file for switching.
use tarbox.Storage.Models.{Layer}
