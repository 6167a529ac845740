-- ===== src/Examples/Preparing.antt =====
-- The preparing functions, and the flags of entries and of files, at concrete inputs.
use century_ring.Common.{
  ℕ, ◌+◌, ◌%◌, ◌^◌, ◌≤◌, ◌<◌, ◌≡◌, ◌⊎◌, refl, true, false, some, List, [], ◌∷◌, ◌++◌, length, take,
  drop, bit_or, arith,
}
use century_ring.Common.Int.{pos}
use century_ring.Common.Bits.{digit}
use century_ring.Common.Exec.{ok, err, value_error, cant_write, out_of_range}
use century_ring.Platform.{io_link}
use century_ring.Platform.Toy.{ToyRing, toy_crates, toy_platform, toy_crate_laws, holds, weight}
use century_ring.Ring.State.{Process}
use century_ring.OpenFlags.{
  read_write, mode_value, FileOpenFlag, append, create_if_not_exists, temporary_file, contains,
  add_flags, enum_flags_to_int_flags, o_cloexec,
}
use century_ring.OpenFlags.Order.{SameFlags, enum_flags_any_order}
use century_ring.OpenFlags.Creation.{creat_place, cloexec_place, enum_flags_to_int_flags_bits}
use century_ring.Prep.Shared.{check_write_buffer, slice}
use century_ring.Prep.Bounds.{check_write_buffer_exact, check_write_buffer_window}
use century_ring.Prep.Flags.{make_uring_flags}
use century_ring.Prep.FlagBits.{make_uring_flags_read_back}
use century_ring.Prep.Pushed.{
  bytes_of, content_of, entry_for, handed_over, prepare_pushes, request, told_length,
}
use century_ring.Prep.SkipSuccess.{OwningOp, read, write, prepare, RaisesFor, skip_success_refused}

abbrev six_bytes : List ℕ
six_bytes = 1 ∷ 2 ∷ 3 ∷ 4 ∷ 5 ∷ 6 ∷ []

check_write_buffer_exact_example :
    ((2 + 3 ≤ length six_bytes) × (check_write_buffer six_bytes 3 2 ≡ ok (2 + 3)))
    ⊎ ((length six_bytes < 2 + 3)
        × ((check_write_buffer six_bytes 3 2 ≡ err (value_error (cant_write 3 (length six_bytes))))
            ⊎ (check_write_buffer six_bytes 3 2
                ≡ err (value_error (out_of_range 2 (length six_bytes))))
            ⊎ (check_write_buffer six_bytes 3 2
                ≡ err (value_error (out_of_range (2 + 3) (length six_bytes))))))
check_write_buffer_exact_example = check_write_buffer_exact six_bytes 3 2

middle_passes : check_write_buffer six_bytes 3 2 ≡ ok 5
unfolding check_write_buffer
middle_passes = refl

check_write_buffer_window_example :
    (length (slice 2 5 six_bytes) ≡ 3)
    × (take 2 six_bytes ++ slice 2 5 six_bytes ++ drop 5 six_bytes ≡ six_bytes)
check_write_buffer_window_example = check_write_buffer_window six_bytes 3 2 5 middle_passes

abbrev idle : Process ToyRing
idle = record {
  ring = record {
    the_io_uring = some (record { cap = 2; queued = []; finished = [] });
    probe = λ _. true;
    user_data_counter = 0;
    autosubmit = true;
    owned_data = [];
  };
  next_block = 0;
}

-- 64 is the bit of SKIP_SUCCESS
skip_success_refused_example :
    let op = read (pos 3) 4 (pos 0) in
    ((prepare op 0 64 idle).1.ring ≡ idle.ring) × RaisesFor op idle (prepare op 0 64 idle).0
skip_success_refused_example = skip_success_refused (read (pos 3) 4 (pos 0)) 0 64 idle refl

-- a linked entry that skips its completion, asked for the link
make_uring_flags_read_back_example :
    (holds (make_uring_flags false false true false false false true % 2 ^ 7) (weight io_link)
      ≡ true)
    × (make_uring_flags false false true false false false true < 2 ^ 8)
make_uring_flags_read_back_example =
    make_uring_flags_read_back toy_crate_laws io_link false false true false false false true

abbrev appending : List FileOpenFlag
appending = append ∷ create_if_not_exists ∷ append ∷ []

abbrev other_order : List FileOpenFlag
other_order = create_if_not_exists ∷ append ∷ []

same_members : SameFlags other_order appending
same_members f = ground arith

enum_flags_any_order_example :
    add_flags (contains temporary_file other_order) other_order o_cloexec
    ≡ enum_flags_to_int_flags appending
enum_flags_any_order_example = enum_flags_any_order appending other_order same_members

enum_flags_to_int_flags_bits_example :
    (digit creat_place (enum_flags_to_int_flags appending) ≡ 1)
    × (digit cloexec_place (enum_flags_to_int_flags appending) ≡ 1)
    × (bit_or (enum_flags_to_int_flags appending) (mode_value read_write) < 2 ^ 31)
enum_flags_to_int_flags_bits_example = enum_flags_to_int_flags_bits appending read_write

abbrev has_pushed : ToyRing
has_pushed = record {
  cap = 2;
  queued = entry_for (write (pos 3) six_bytes 3 2 (pos 0)) 0 9 0 ∷ [];
  finished = [];
}

abbrev write_middle : OwningOp
write_middle = write (pos 3) six_bytes 3 2 (pos 0)

prepare_pushes_example :
    (prepare write_middle 9 0 idle ≡ (ok tt, handed_over write_middle 9 has_pushed idle))
    × (told_length (request write_middle 0) ≤ length (bytes_of (content_of write_middle)))
prepare_pushes_example =
    prepare_pushes write_middle 9 0 idle {r = record { cap = 2; queued = []; finished = [] }}
      {r' = has_pushed} refl refl refl tt (omega arith) refl
