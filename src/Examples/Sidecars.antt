-- ===== src/Examples/Sidecars.antt =====
-- `start_uring_sidecar` at concrete inputs.
use century_ring.Common.{◌≡◌, refl, true, false, Option, none, some, []}
use century_ring.Common.Int.{ℤ, pos}
use century_ring.Common.Exec.{Result, Exec, ok, ◌>>=◌}
use century_ring.Platform.Toy.{ToyRing, toy_crates, toy_platform, toy_os}
use century_ring.Sidecar.Toy.{ToyHost, toy_host, toy_host_laws}
use century_ring.Handle.{HandleStore}
use century_ring.Ring.Queue as RingQueue
use century_ring.Ring.State.{TheIoRing}
use century_ring.Ring.Create.{create_io_ring, new_ring, is_too_old, build_options}
use century_ring.Client.Queue
use century_ring.Client.Session.{
  Scope, finished, new_scope, new_world, created, make_io_ring, run_and_close, create_args,
  positive_or_zero,
}
use century_ring.Sidecar.Host.{trio, asyncio}
use century_ring.Sidecar.Start.{
  SidecarArgs, ManagerArgs, default_ring_args, start_uring_sidecar, beside_ring, with_manager,
  set_up_eventfd,
}
use century_ring.Sidecar.Ending.{is_err, sidecar_ignores_arguments, sidecar_instrument_outcomes}

abbrev sidecar : ℤ → SidecarArgs
sidecar entries = record {
  ring = record default_ring_args { entries = entries };
  force_submissions = false;
}

abbrev no_handles : HandleStore
no_handles = record { handles = []; close_calls = [] }

abbrev quiet_loop : ToyHost
quiet_loop = record { made = 0; installed = λ _. false }

-- a body that gives the eventfd
abbrev give_efd : ManagerArgs → Exec (Scope ToyRing ToyHost) ℤ
give_efd a s = (ok a.efd, s)

sidecar_ignores_arguments_example :
    start_uring_sidecar (sidecar (pos 0)) asyncio give_efd no_handles quiet_loop
    ≡ start_uring_sidecar (sidecar (pos 8)) asyncio give_efd no_handles quiet_loop
sidecar_ignores_arguments_example =
    sidecar_ignores_arguments (sidecar (pos 0)) (sidecar (pos 8)) asyncio give_efd no_handles
      quiet_loop refl

abbrev new_toy_ring : TheIoRing ToyRing
new_toy_ring = new_ring (record { cap = 256; queued = []; finished = [] }) true (λ _. true)

-- what the block of `make_io_ring` comes to on the new ring
abbrev at_the_end : Result (Option ℤ) × Scope ToyRing ToyHost
at_the_end =
    run_and_close (beside_ring trio false give_efd) (new_scope new_toy_ring no_handles quiet_loop)

body_ran :
    start_uring_sidecar (sidecar (pos 8)) trio give_efd no_handles quiet_loop
    ≡ finished at_the_end.0 at_the_end.1
unfolding start_uring_sidecar make_io_ring create_args positive_or_zero create_io_ring is_too_old
    build_options ◌>>=◌
body_ran = refl

gives_five : at_the_end.0 ≡ ok (some (pos 5))
unfolding run_and_close beside_ring with_manager set_up_eventfd Queue.register_eventfd
    RingQueue.register_eventfd ◌>>=◌
gives_five = refl

sidecar_instrument_outcomes_example :
    (ring : TheIoRing ToyRing) × ((created default_ring_args no_handles).0 ≡ ok ring)
    × (at_the_end.1.world.process.ring.the_io_uring ≡ none)
    × (at_the_end.1.outer.installed 0 ≡ is_err (set_up_eventfd (new_world ring no_handles)).0)
sidecar_instrument_outcomes_example =
    sidecar_instrument_outcomes toy_host_laws (sidecar (pos 8)) give_efd no_handles quiet_loop
      at_the_end.0 at_the_end.1 (λ m s there. there) body_ran
