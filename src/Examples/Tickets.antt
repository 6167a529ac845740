-- ===== src/Examples/Tickets.antt =====
-- A write, a read and a reaping on a new ring: what the user sees.
use century_ring.Common.{◌≡◌, refl, none, List, [], ◌∷◌, ◌≤◌, arith}
use century_ring.Common.Int.{pos, as_u64}
use century_ring.Common.Exec.{◌>>=◌}
use century_ring.Platform.Toy.{toy_crates, toy_platform, toy_os, toy_crate_laws, toy_laws}
use century_ring.Ring.State.{get_next_user_data, require_support, allocate, add_owned_buffer}
use century_ring.Ring.Queue.{autosubmit, autosubmit_loop}
use century_ring.Ring.Queue as RingQueue
use century_ring.Ring.Reap.{drain, take_results, should_be_ignored, fit, resize}
use century_ring.Ring.Reap as RingReap
use century_ring.Prep.Shared.{check_write_buffer}
use century_ring.Prep.Files.{ioring_prep_read, ioring_prep_write}
use century_ring.Client.State.{int, unwrap_file}
use century_ring.Client.Files
use century_ring.Client.Queue as ClientQueue
use century_ring.Client.Session.{new_world}
use century_ring.Client.Methods.{prep_read, prep_write, call_method}
use century_ring.Memory.QuietCalls.{submit, run_quiet}
use century_ring.Memory.Sequence.{Call, prepare, quietly, get_completion_entries, run_call}
use century_ring.Tickets.Protocol.{issued, reported, Allowed, reports_of, issues_of}
use century_ring.Tickets.Trace.{trace}
use century_ring.Tickets.Refines.{follows_protocol, answered_at_most_once}
use century_ring.Examples.Memory.{two_entries, fresh_ring, no_handles, created}

-- two bytes written to fd 3 and four read from it; the kernel completes both
abbrev both_answered : List Call
both_answered =
    prepare (prep_write (int (pos 3)) (104 ∷ 105 ∷ []) (pos 0) none none none)
    ∷ prepare (prep_read (int (pos 3)) (pos 4) (pos 0) none)
    ∷ quietly submit
    ∷ get_completion_entries 3
    ∷ []

seen :
    trace both_answered (new_world fresh_ring no_handles)
    ≡ issued 0 ∷ issued 1 ∷ reported 1 ∷ reported 0 ∷ []
unfolding trace run_call run_quiet call_method Files.prep_read Files.prep_write RingQueue.submit
    ClientQueue.submit ioring_prep_read ioring_prep_write check_write_buffer unwrap_file autosubmit
    autosubmit_loop require_support allocate add_owned_buffer get_next_user_data as_u64 ◌>>=◌ drain
    take_results should_be_ignored RingReap.get_completion_entries
    ClientQueue.get_completion_entries fit resize
seen = refl

follows_protocol_example : Allowed 0 [] (trace both_answered (new_world fresh_ring no_handles))
follows_protocol_example =
    follows_protocol toy_crate_laws toy_laws two_entries fresh_ring no_handles both_answered created
      (omega arith)

answered_at_most_once_example :
    (reports_of 1 (trace both_answered (new_world fresh_ring no_handles))
      ≤ issues_of 1 (trace both_answered (new_world fresh_ring no_handles)))
    × (issues_of 1 (trace both_answered (new_world fresh_ring no_handles)) ≤ 1)
answered_at_most_once_example =
    answered_at_most_once toy_crate_laws toy_laws two_entries fresh_ring no_handles both_answered 1
      created (omega arith)
