-- ===== src/Wasi/Error.antt =====
-- src/wasi/error.rs: the errors of the WASI adapter, their errno values, and the conversion from
-- the errors of the file system.
use tarbox.Base.{ℕ, Bytes, bytes}
use tarbox.Path.{
  FsError, path_not_found, already_exists, not_directory, is_directory, directory_not_empty,
  invalid_path, path_too_long, filename_too_long, storage,
}

pub data WasiError : Type 0 where
  not_found permission_denied already_exists_error invalid_argument : WasiError
  is_directory_error not_directory_error directory_not_empty_error : WasiError
  no_space_left invalid_fd bad_fd fd_not_open not_supported : WasiError
  io_error : Bytes → WasiError

-- `impl From<FsError> for WasiError`
unfoldable pub from_fs_error : FsError → WasiError
from_fs_error (path_not_found _) = not_found
from_fs_error (already_exists _) = already_exists_error
from_fs_error (not_directory _) = not_directory_error
from_fs_error (is_directory _) = is_directory_error
from_fs_error (directory_not_empty _) = directory_not_empty_error
from_fs_error (invalid_path _) = invalid_argument
from_fs_error (path_too_long _) = invalid_argument
from_fs_error (filename_too_long _) = invalid_argument
from_fs_error (storage _) = io_error (bytes "Storage error")

unfoldable pub to_wasi_errno : WasiError → ℕ
to_wasi_errno not_found = 44
to_wasi_errno permission_denied = 63
to_wasi_errno already_exists_error = 20
to_wasi_errno invalid_argument = 28
to_wasi_errno is_directory_error = 31
to_wasi_errno not_directory_error = 54
to_wasi_errno directory_not_empty_error = 66
to_wasi_errno no_space_left = 51
to_wasi_errno invalid_fd = 8
to_wasi_errno bad_fd = 8
to_wasi_errno fd_not_open = 8
to_wasi_errno not_supported = 58
to_wasi_errno (io_error _) = 29
