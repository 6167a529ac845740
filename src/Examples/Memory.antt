-- ===== src/Examples/Memory.antt =====
-- Reading and writing on a new ring: the entries that are still outstanding.
use century_ring.Common.{ℕ, ◌⊎◌, ◌≡◌, refl, true, none, some, List, [], ◌∷◌, In, here, there, arith}
use century_ring.Common.Int.{pos, as_u64}
use century_ring.Common.Dict.{lookup}
use century_ring.Common.Exec.{ok, ◌>>=◌}
use century_ring.Platform.{Op, Sqe, Timespec, on_heap, in_frame}
use century_ring.Platform.Toy.{ToyRing, toy_crates, toy_platform, toy_os, toy_crate_laws, toy_laws}
use century_ring.Ring.State.{
  TheIoRing, get_next_user_data, require_support, allocate, add_owned_buffer,
}
use century_ring.Ring.Queue.{timeout_user_data, autosubmit, autosubmit_loop}
use century_ring.Ring.Queue as RingQueue
use century_ring.Ring.Create.{CreateArgs, create_io_ring, is_too_old, build_options, new_ring}
use century_ring.Handle.{HandleStore}
use century_ring.Prep.Shared.{check_write_buffer}
use century_ring.Prep.Files.{ioring_prep_read, ioring_prep_write}
use century_ring.Client.State.{int, unwrap_file}
use century_ring.Client.Files
use century_ring.Client.Queue as ClientQueue
use century_ring.Client.Session.{new_world}
use century_ring.Memory.Invariant.{block_of, IsSafe, pending_of}
use century_ring.Client.Methods.{prep_read, prep_write, call_method}
use century_ring.Memory.QuietCalls.{submit, run_quiet}
use century_ring.Memory.Frames.{any_timed}
use century_ring.Memory.Sequence.{Call, prepare, quietly, run_call, run_calls, run_calls-IsSafe}
use century_ring.Memory.Created.{memory_safety, IsNew-IsSafe}

abbrev pub two_entries : CreateArgs
two_entries = record {
  entries = 2;
  cq_entries = 0;
  sqlpoll_idle_ms = 0;
  single_issuer = true;
  autosubmit = true;
}

abbrev empty_queue : ToyRing
empty_queue = record { cap = 2; queued = []; finished = [] }

abbrev pub fresh_ring : TheIoRing ToyRing
fresh_ring = new_ring empty_queue true (λ _. true)

abbrev pub no_handles : HandleStore
no_handles = record { handles = []; close_calls = [] }

-- four bytes read from fd 3, two written to it, and both submitted
abbrev read_write_submit : List Call
read_write_submit =
    prepare (prep_read (int (pos 3)) (pos 4) (pos 0) none)
    ∷ prepare (prep_write (int (pos 3)) (104 ∷ 105 ∷ []) (pos 0) none none none)
    ∷ quietly submit
    ∷ []

abbrev read_entry : Sqe
read_entry = record { op = Op.read (pos 3) 0 4 0; flags = 0; user_data = 0 }

pub created : create_io_ring two_entries ≡ ok fresh_ring
unfolding create_io_ring is_too_old build_options
created = refl

still_there : In read_entry (
    pending_of toy_laws
      (run_calls read_write_submit (new_world fresh_ring no_handles)).process.the_io_uring)
unfolding run_calls run_call run_quiet call_method Files.prep_read Files.prep_write RingQueue.submit
    ClientQueue.submit ioring_prep_read ioring_prep_write check_write_buffer unwrap_file autosubmit
    autosubmit_loop require_support allocate add_owned_buffer get_next_user_data as_u64 ◌>>=◌
still_there = there here

memory_safety_example :
    ((block : ℕ) × (on_heap 0 ≡ on_heap block)
      × (block_of (
            lookup 0
              (run_calls read_write_submit (new_world fresh_ring no_handles)).process.owned_data)
          ≡ some block))
    ⊎ ((t : Timespec) × (on_heap 0 ≡ in_frame t)
        × (◌≡◌ {A = ℕ} 0 timeout_user_data)
        × (any_timed read_write_submit ≡ true))
memory_safety_example =
    memory_safety toy_crate_laws toy_laws two_entries fresh_ring no_handles read_write_submit
      read_entry (on_heap 0) created (omega arith) still_there refl

run_calls-IsSafe_example :
    IsSafe toy_laws (run_calls read_write_submit (new_world fresh_ring no_handles)).process.ring
run_calls-IsSafe_example =
    run_calls-IsSafe toy_crate_laws toy_laws read_write_submit (new_world fresh_ring no_handles)
      (omega arith) (IsNew-IsSafe toy_laws fresh_ring (refl, refl))
