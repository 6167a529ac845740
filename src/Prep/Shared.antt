-- ===== src/Prep/Shared.antt =====
-- src/shared.rs, and the steps that several of the preparing functions begin with.
use century_ring.Common.{ℕ, ◌+◌, ◌-◌, ◌%◌, ◌^◌, Bool, List, ltb, length, take, drop, if◌then◌else◌}
use century_ring.Common.Int.{ℤ}
use century_ring.Common.Exec.{
  Result, ok, err, Exec, ◌>>◌, raise_if, value_error, skip_success_owned, cant_write, out_of_range,
}
use century_ring.Platform.{Opcode, Op, skip_success, Crates, Platform}
use century_ring.Ring.State.{Process, require_support}
use century_ring.Ring.Queue.{autosubmit}

unfoldable pub check_write_buffer : List ℕ → ℕ → ℕ → Result ℕ
check_write_buffer buf size offset =
    if ltb (length buf) size
    then err (value_error (cant_write size (length buf)))
    else if ltb (length buf) offset
    then err (value_error (out_of_range offset (length buf)))
    else if ltb (length buf) (offset + size)
    then err (value_error (out_of_range (offset + size) (length buf)))
    else ok (offset + size)

-- `data[first..last].to_vec()`
abbrev pub slice : ℕ → ℕ → List ℕ → List ℕ
slice first last buf = take (last - first) (drop first buf)

-- `as u32` of a length
abbrev pub as_u32 : ℕ → ℕ
as_u32 n = n % 2 ^ 32

abbrev pub is_skip_success : ⦃c : Crates⦄ → ℕ → Bool
is_skip_success ⦃c⦄ flags = c.contains flags (c.flag skip_success)

module _ {R : Type 0} ⦃c : Crates⦄ where
  -- `if parsed_sqe_flags.contains(Flags::SKIP_SUCCESS) { return Err(…) }`
  abbrev pub refuse_skip_success : ℕ → Exec (Process R) Unit
  refuse_skip_success flags = raise_if (is_skip_success flags) (value_error skip_success_owned)

module _ {R : Type 0} ⦃c : Crates⦄ ⦃p : Platform R⦄ where
  unfoldable pub ioring_prep_close : ℤ → ℕ → ℕ → Exec (Process R) Unit
  ioring_prep_close fd user_data sqe_flags = do
    require_support Opcode.close "read"
    autosubmit
        (record { op = Op.close fd; flags = c.from_bits_truncate sqe_flags; user_data = user_data })
