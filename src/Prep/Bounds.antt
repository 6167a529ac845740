-- ===== src/Prep/Bounds.antt =====
-- `check_write_buffer` of src/shared.rs, and the window of the buffer that a write or send copies.
use century_ring.Common.{
  ℕ, ◌+◌, ◌-◌, ◌≤◌, ◌<◌, ◌≡◌, ap, ◌⊎◌, List, ◌++◌, length, take, drop, length-take, length-drop,
  window_split, arith,
}
use century_ring.Common.Exec.{cant_write, out_of_range, ok, err, value_error}
use century_ring.Prep.Shared.{check_write_buffer, slice}

-- Either the window from `offset` on, of `size` bytes, lies in the buffer, and the check gives its
-- end; or it does not, and the check is a ValueError with one of the two messages.
pub check_write_buffer_exact :
    (buf : List ℕ) (size offset : ℕ)
    → let checked = check_write_buffer buf size offset in
      ((offset + size ≤ length buf) × (checked ≡ ok (offset + size)))
      ⊎ ((length buf < offset + size)
          × ((checked ≡ err (value_error (cant_write size (length buf))))
              ⊎ (checked ≡ err (value_error (out_of_range offset (length buf))))
              ⊎ (checked ≡ err (value_error (out_of_range (offset + size) (length buf))))))
unfolding check_write_buffer
check_write_buffer_exact buf size offset = ground arith

pub check_passed :
    (buf : List ℕ) (size offset last : ℕ)
    → check_write_buffer buf size offset ≡ ok last
    → (offset + size ≤ length buf) × (last ≡ offset + size)
unfolding check_write_buffer
check_passed buf size offset last h = ground arith

-- When the check has given an end, the bytes from the offset up to it are as many as were asked
-- for, and stand in the buffer between the first `offset` bytes and the rest after the end.
pub check_write_buffer_window :
    (buf : List ℕ) (size offset last : ℕ)
    → check_write_buffer buf size offset ≡ ok last
    → (length (slice offset last buf) ≡ size)
      × (take offset buf ++ slice offset last buf ++ drop last buf ≡ buf)
check_write_buffer_window buf size offset last h =
    let (fits, last_is) = check_passed buf size offset last h in
    let width : last - offset ≡ size = omega arith in
    (
      omega (arith, length-take (last - offset) (drop offset buf), length-drop offset buf),
      rw width (rw (ap (λ n. drop n buf) last_is) (window_split offset size buf)),
    )
