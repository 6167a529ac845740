-- ===== src/Prep/Files.antt =====
-- src/files.rs: opening, reading and writing files.
use century_ring.Common.{ℕ, List, [], ◌∷◌, ◌++◌, length, replicate}
use century_ring.Common.Int.{ℤ, as_u64}
use century_ring.Common.Exec.{Exec, lift, ◌>>=◌, ◌>>◌}
use century_ring.Platform.{Opcode, Op, Crates, Platform}
use century_ring.Ring.State.{Process, require_support, allocate, add_owned_path, add_owned_buffer}
use century_ring.Ring.Queue.{autosubmit}
use century_ring.Prep.Shared.{check_write_buffer, slice, as_u32, refuse_skip_success}

module _ {R : Type 0} ⦃c : Crates⦄ ⦃p : Platform R⦄ where
  unfoldable pub ioring_prep_openat : ℤ → List ℕ → ℕ → ℤ → ℕ → ℕ → Exec (Process R) Unit
  ioring_prep_openat dirfd file_path user_data file_flags mode sqe_flags = do
    require_support Opcode.open_at "openat"
    let flags = c.from_bits_truncate sqe_flags
    refuse_skip_success flags
    owned_path ← allocate
    autosubmit (record {
      op = Op.open_at dirfd owned_path file_flags mode;
      flags = flags;
      user_data = user_data;
    })
    add_owned_path user_data owned_path (file_path ++ 0 ∷ [])

  unfoldable pub ioring_prep_read : ℤ → ℕ → ℤ → ℕ → ℕ → Exec (Process R) Unit
  ioring_prep_read fd max_size offset user_data sqe_flags = do
    require_support Opcode.read "read"
    let flags = c.from_bits_truncate sqe_flags
    refuse_skip_success flags
    buf ← allocate
    autosubmit (record {
      op = Op.read fd buf max_size (as_u64 offset);
      flags = flags;
      user_data = user_data;
    })
    add_owned_buffer user_data buf (replicate max_size 0)

  unfoldable pub ioring_prep_write : ℤ → List ℕ → ℕ → ℕ → ℤ → ℕ → ℕ → Exec (Process R) Unit
  ioring_prep_write fd bytes size buffer_offset file_offset user_data sqe_flags = do
    require_support Opcode.write "write"
    let flags = c.from_bits_truncate sqe_flags
    refuse_skip_success flags
    end_offset ← lift (check_write_buffer bytes size buffer_offset)
    let copy = slice buffer_offset end_offset bytes
    vec ← allocate
    autosubmit (record {
      op = Op.write fd vec (as_u32 (length copy)) (as_u64 file_offset);
      flags = flags;
      user_data = user_data;
    })
    add_owned_buffer user_data vec copy
