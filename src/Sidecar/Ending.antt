-- ===== src/Sidecar/Ending.antt =====
-- pysrc/century_ring/aio/sidecar.py: what `start_uring_sidecar` leaves behind.
use century_ring.Common.{ℕ, ◌≡◌, inl, inr, refl, ap, ◌∙◌, Bool, true, false, Option, none, some}
use century_ring.Common.Exec.{Result, Result-cases, ok, err, Exec, ◌>>=◌}
use century_ring.Platform.{Crates, Platform, Os}
use century_ring.Handle.{HandleStore}
use century_ring.Ring.State.{TheIoRing}
use century_ring.Client.Session.{Scope, finished, new_world, created}
use century_ring.Client.Closing.{make_io_ring_closes}
use century_ring.Sidecar.Host.{AsyncLibrary, trio, AsyncHost, AsyncHostLaws}
use century_ring.Sidecar.Start.{
  SidecarArgs, ManagerArgs, default_ring_args, forces, set_up_eventfd, with_manager, with_group,
  beside_ring, start_uring_sidecar,
}

abbrev pub is_err : {A : Type 0} → Result A → Bool
is_err (ok a) = false
is_err (err e) = true

module _ {R E A : Type 0} ⦃c : Crates⦄ ⦃p : Platform R⦄ ⦃o : Os⦄ ⦃host : AsyncHost E⦄ where
  -- The arguments for the ring make no difference: two calls with the same `force_submissions` do
  -- the same, and on asyncio any two calls do.
  pub sidecar_ignores_arguments :
      (a b : SidecarArgs) (lib : AsyncLibrary) (body : ManagerArgs → Exec (Scope R E) A)
      (store : HandleStore) (outer : E)
      → forces lib a.force_submissions ≡ forces lib b.force_submissions
      → start_uring_sidecar a lib body store outer ≡ start_uring_sidecar b lib body store outer
  unfolding start_uring_sidecar beside_ring
  sidecar_ignores_arguments a b lib body store outer same = rw same refl

  module _ (laws : AsyncHostLaws E) (force_submissions : Bool)
      (body : ManagerArgs → Exec (Scope R E) A) (i : ℕ)
      (keeps : (m : ManagerArgs) (s : Scope R E)
        → laws.installed s.outer i ≡ true
        → laws.installed (body m s).1.outer i ≡ true) where
    manager-installed :
        (g : ℕ) (s : Scope R E)
        → laws.installed s.outer i ≡ true
        → laws.installed (with_manager force_submissions (some i) body g s).1.outer i
          ≡ is_err (set_up_eventfd s.world).0
    unfolding with_manager ◌>>=◌
    manager-installed g s there = elim (Result-cases (set_up_eventfd s.world).0) [
      | inl (efd, done) ↦ rw done (
          laws.remove_removes i _
            (laws.cancel_keeps g i _ ∙ keeps _ _ (laws.start_keeps g i s.outer ∙ there)))
      | inr (e, failed) ↦ rw failed there
    ]

    group-installed :
        (s : Scope R E)
        → laws.installed s.outer i ≡ true
        → laws.installed (with_group (with_manager force_submissions (some i) body) s).1.outer i
          ≡ is_err (set_up_eventfd s.world).0
    group-installed s there =
        laws.exit_keeps _ i _ _ ∙ manager-installed _ _ (laws.group_keeps i s.outer ∙ there)

  -- On trio, if the ring of the sidecar was created, its instrument is removed from the event loop
  -- at the end, however the block ends, provided the block does not remove it itself; but if the
  -- eventfd cannot be made or registered, the instrument stays installed, though its ring is closed.
  pub sidecar_instrument_outcomes :
      (laws : AsyncHostLaws E) (a : SidecarArgs) (body : ManagerArgs → Exec (Scope R E) A)
      (store : HandleStore) (outer : E) (r : Result (Option A)) (s : Scope R E)
      → let i = (host.new_object outer).0 in
        ((m : ManagerArgs) (s : Scope R E)
          → laws.installed s.outer i ≡ true
          → laws.installed (body m s).1.outer i ≡ true)
        → start_uring_sidecar a trio body store outer ≡ finished r s
        → (ring : TheIoRing R) × ((created default_ring_args store).0 ≡ ok ring)
          × (s.world.process.ring.the_io_uring ≡ none)
          × (laws.installed s.outer i ≡ is_err (set_up_eventfd (new_world ring store)).0)
  unfolding start_uring_sidecar beside_ring ◌>>=◌
  sidecar_instrument_outcomes laws a body store outer r s keeps h =
      let (i, e) = host.new_object outer in
      let (ring, made, _, _, left, closed) =
        make_io_ring_closes default_ring_args (beside_ring trio a.force_submissions body) store
          outer r s h in
      (
        ring,
        made,
        closed,
        ap (λ e. laws.installed e i) left
            ∙ group-installed laws a.force_submissions body i keeps
                (record { world = new_world ring store; outer = host.add_instrument i e })
                (laws.add_installs i e),
      )
