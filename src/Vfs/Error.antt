-- ===== src/Vfs/Error.antt =====
-- `VfsError` of src/drivers/vfs.rs, and the results that carry it. A driver error is a boxed value
-- that is only printed, so its content is left out.
pub data VfsError : Type 0 where
  file_system_mismatch : VfsError
  action_not_allowed : VfsError
  path_not_found : VfsError
  read_only : VfsError
  file_system_not_mounted : VfsError
  bad_buffer_size : VfsError
  not_directory : VfsError
  not_file : VfsError
  not_mount_point : VfsError
  out_of_bounds : VfsError
  unknown_error : VfsError
  invalid_open_mode : VfsError
  invalid_seek_position : VfsError
  bad_handle : VfsError
  already_mounted : VfsError
  out_of_space : VfsError
  invalid_argument : VfsError
  maximum_size_reached : VfsError
  entry_not_found : VfsError
  file_already_exists : VfsError
  invalid_data_structure : VfsError
  directory_not_empty : VfsError
  name_too_long : VfsError
  short_read : VfsError
  finished : VfsError
  would_block : VfsError
  broken_pipe : VfsError
  driver_error : VfsError

pub data Result {ℓ} (A : Type ℓ) : Type ℓ where
  done : A → Result A
  fail : VfsError → Result A
