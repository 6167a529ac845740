-- ===== src/Client/Files.antt =====
-- pysrc/century_ring/ring.py: `prep_openat`, `prep_close`, `prep_read` and `prep_write`. A path is
-- the bytes that `os.fsencode` gives.
use century_ring.Common.{ℕ, Option, none, some, List, [], ◌∷◌, bit_or, length}
use century_ring.Common.Int.{ℤ, pos, negsuc, ltb_ℤ}
use century_ring.Common.Exec.{Exec, pure, ◌>>=◌, ◌>>◌, raise_if, value_error, negative_offset}
use century_ring.Platform.{Crates, Platform}
use century_ring.Handle.{fd_of, mark_closed}
use century_ring.OpenFlags.{
  FileOpenMode, mode_value, FileOpenFlag, o_cloexec, enum_flags_to_int_flags,
}
use century_ring.Prep.Shared.{ioring_prep_close}
use century_ring.Prep.Files.{ioring_prep_openat, ioring_prep_read, ioring_prep_write}
use century_ring.Client.State.{
  AcceptableFile, int, object, World, on_process, on_store, unsigned, signed, unwrap_file,
  next_user_data, if_none,
}

-- `enum_flags_to_int_flags(flags) if flags else os.O_CLOEXEC`
unfoldable pub raw_open_flags : Option (List FileOpenFlag) → ℕ
raw_open_flags none = o_cloexec
raw_open_flags (some []) = o_cloexec
raw_open_flags (some (f ∷ flags)) = enum_flags_to_int_flags (f ∷ flags)

module _ {R : Type 0} where
  -- the branches on `relative_to`; a handle is not asked whether it is closed
  unfoldable pub directory_fd : Option AcceptableFile → Exec (World R) ℤ
  directory_fd none = pure (negsuc 0)
  directory_fd (some (int fd)) = pure fd
  directory_fd (some (object ref)) = on_store (fd_of ref)

  -- `if not isinstance(fd, int): fd.as_handle().mark_closed()`
  abbrev pub mark_if_object : AcceptableFile → Exec (World R) Unit
  mark_if_object (int fd) = pure tt
  mark_if_object (object ref) = on_store (mark_closed ref)

module _ {R : Type 0} ⦃c : Crates⦄ ⦃p : Platform R⦄ where
  unfoldable pub prep_openat :
      Option AcceptableFile
      → List ℕ
      → FileOpenMode
      → Option (List FileOpenFlag)
      → ℤ
      → Option ℤ
      → Exec (World R) ℕ
  prep_openat relative_to path open_mode flags permissions sqe_flags = do
    dirfd ← directory_fd relative_to
    let raw_flags = raw_open_flags flags
    user_data ← next_user_data
    dir ← signed 32 dirfd
    ud ← unsigned 64 (pos user_data)
    file_flags ← signed 32 (pos (bit_or raw_flags (mode_value open_mode)))
    mode ← unsigned 32 permissions
    sqe ← unsigned 8 (if_none (pos 0) sqe_flags)
    on_process (ioring_prep_openat dir path ud file_flags mode sqe)
    pure user_data

  unfoldable pub prep_close : AcceptableFile → Option ℤ → Exec (World R) ℕ
  prep_close fd sqe_flags = do
    user_data ← next_user_data
    file ← unwrap_file fd
    raw_fd ← signed 32 file
    ud ← unsigned 64 (pos user_data)
    sqe ← unsigned 8 (if_none (pos 0) sqe_flags)
    on_process (ioring_prep_close raw_fd ud sqe)
    mark_if_object fd
    pure user_data

  unfoldable pub prep_read : AcceptableFile → ℤ → ℤ → Option ℤ → Exec (World R) ℕ
  prep_read fd byte_count offset sqe_flags = do
    raise_if (ltb_ℤ offset (negsuc 0)) (value_error (negative_offset offset))
    user_data ← next_user_data
    file ← unwrap_file fd
    raw_fd ← signed 32 file
    max_size ← unsigned 32 byte_count
    from ← signed 64 offset
    ud ← unsigned 64 (pos user_data)
    sqe ← unsigned 8 (if_none (pos 0) sqe_flags)
    on_process (ioring_prep_read raw_fd max_size from ud sqe)
    pure user_data

  unfoldable pub prep_write :
      AcceptableFile → List ℕ → ℤ → Option ℤ → Option ℤ → Option ℤ → Exec (World R) ℕ
  prep_write fd buffer file_offset count buffer_offset sqe_flags = do
    raise_if (ltb_ℤ file_offset (negsuc 0)) (value_error (negative_offset file_offset))
    user_data ← next_user_data
    file ← unwrap_file fd
    raw_fd ← signed 32 file
    size ← unsigned 64 (if_none (pos (length buffer)) count)
    from ← unsigned 64 (if_none (pos 0) buffer_offset)
    at_offset ← signed 64 file_offset
    ud ← unsigned 64 (pos user_data)
    sqe ← unsigned 8 (if_none (pos 0) sqe_flags)
    on_process (ioring_prep_write raw_fd buffer size from at_offset ud sqe)
    pure user_data
