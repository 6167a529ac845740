-- ===== src/Memory/Created.antt =====
-- From `create_io_ring` (src/ring.rs) on.
use century_ring.Common.{
  ℕ, ◌≤◌, ◌≡◌, refl, ◌⊎◌, inl, inr, some, true, Bool-cases, List, [], length, In, arith,
}
use century_ring.Common.Dict.{lookup}
use century_ring.Common.Exec.{ok}
use century_ring.Platform.{
  Sqe, Timespec, Target, on_heap, in_frame, points_to, IoResult, done, failed, Crates, Platform, Os,
}
use century_ring.Platform.Laws.{CrateLaws, PlatformLaws}
use century_ring.Ring.State.{TheIoRing}
use century_ring.Ring.Create.{CreateArgs, create_io_ring, with_built, or_oldest, build_options}
use century_ring.Ring.Queue.{timeout_user_data}
use century_ring.Handle.{HandleStore}
use century_ring.Client.Session.{new_world}
use century_ring.Memory.Invariant.{reserved, IsSafe, pending_of, block_of}
use century_ring.Memory.Frames.{NoFrames, any_timed, run_calls-NoFrames}
use century_ring.Memory.Sequence.{Call, run_calls, run_calls-IsSafe}

module _ {R : Type 0} ⦃c : Crates⦄ ⦃p : Platform R⦄ (laws : PlatformLaws R) where
  -- A new ring: nothing is outstanding, and the counter is at its start.
  abbrev pub IsNew : TheIoRing R → Type 0
  IsNew ring = (pending_of laws ring.the_io_uring ≡ []) × (ring.user_data_counter ≡ 0)

  pub IsNew-IsSafe : (ring : TheIoRing R) → IsNew ring → IsSafe laws ring
  IsNew-IsSafe ring (empty, start) = rw empty (record {
    owns = λ e b m. elim m [ ];
    once = λ u h. omega arith;
    fresh = λ u h k. refl;
    pointing = λ e b m. elim m [ ];
    frames = λ e t m. elim m [ ];
  })

  with_built-IsNew :
      (a : CreateArgs) (ring : TheIoRing R) (x : IoResult R)
      → ((r : R) → x ≡ done r → laws.outstanding r ≡ [])
      → with_built a.autosubmit x ≡ ok ring
      → IsNew ring
  with_built-IsNew a ring (failed errno) empty h = cc
  with_built-IsNew a ring (done r) empty h = ground (arith, empty r refl)

  pub create_io_ring-IsNew :
      (a : CreateArgs) (ring : TheIoRing R) → create_io_ring a ≡ ok ring → IsNew ring
  unfolding create_io_ring
  create_io_ring-IsNew a ring h =
      let options = build_options (or_oldest c.kernel_version) a in
      ground (
        arith,
        with_built-IsNew a ring (p.build options) (λ r e. laws.build_empty options {r = r} e),
      )

module _ {R : Type 0} ⦃c : Crates⦄ ⦃p : Platform R⦄ ⦃o : Os⦄ where
  calls-IsSafe :
      (claws : CrateLaws) (laws : PlatformLaws R) (a : CreateArgs) (ring : TheIoRing R)
      (store : HandleStore) (calls : List Call)
      → create_io_ring a ≡ ok ring
      → length calls ≤ reserved
      → IsSafe laws (run_calls calls (new_world ring store)).process.ring
  calls-IsSafe claws laws a ring store calls made few =
      let new = create_io_ring-IsNew laws a ring made in
      run_calls-IsSafe claws laws calls (new_world ring store) (omega (arith, new.1))
        (IsNew-IsSafe laws ring new)

  -- An entry that points into a stack frame is there only if a call has pushed a timeout.
  calls-Timed :
      (claws : CrateLaws) (laws : PlatformLaws R) (a : CreateArgs) (ring : TheIoRing R)
      (store : HandleStore) (calls : List Call) (e : Sqe) (t : Timespec)
      → create_io_ring a ≡ ok ring
      → length calls ≤ reserved
      → In e (pending_of laws (run_calls calls (new_world ring store)).process.the_io_uring)
      → points_to e.op ≡ some (in_frame t)
      → any_timed calls ≡ true
  calls-Timed claws laws a ring store calls e t made few m points =
      let new = create_io_ring-IsNew laws a ring made in
      let none_yet : NoFrames (pending_of laws ring.the_io_uring) =
        rw (new.0) (λ d t m. elim m [ ]) in
      elim (Bool-cases (any_timed calls)) [
        | inl timed ↦ timed
        | inr untimed ↦ absurd (
            run_calls-NoFrames claws laws calls 0 (new_world ring store) (omega arith)
              (record { safe = IsNew-IsSafe laws ring new; counted = omega (arith, new.1) }) untimed
              none_yet e t m points)
      ]

  -- For every way to create the ring and every sequence of up to 2^63 calls of the methods of
  -- `IoUring` and of handles, raising or not, with any arguments: if an outstanding entry of the ring,
  -- which is still open, points anywhere, then it points into an allocation that the ring object owns
  -- under the entry's user data, or one of the calls was `submit_and_wait_with_timeout`, and it is a
  -- timeout, by its user data, which points into the stack frame of `wait_with_timeout`.
  pub memory_safety :
      (claws : CrateLaws) (laws : PlatformLaws R) (a : CreateArgs) (ring : TheIoRing R)
      (store : HandleStore) (calls : List Call) (e : Sqe) (target : Target)
      → create_io_ring a ≡ ok ring
      → length calls ≤ reserved
      → let after = (run_calls calls (new_world ring store)).process in
        In e (pending_of laws after.the_io_uring)
        → points_to e.op ≡ some target
        → ((block : ℕ) × (target ≡ on_heap block)
            × (block_of (lookup e.user_data after.owned_data) ≡ some block))
          ⊎ ((t : Timespec) × (target ≡ in_frame t)
              × (e.user_data ≡ timeout_user_data)
              × (any_timed calls ≡ true))
  memory_safety claws laws a ring store calls e (on_heap block) made few m points =
      let safe = calls-IsSafe claws laws a ring store calls made few in
      inl (block, refl, safe.owns e block m points)
  memory_safety claws laws a ring store calls e (in_frame t) made few m points =
      let safe = calls-IsSafe claws laws a ring store calls made few in
      inr (
        t,
        refl,
        safe.frames e t m points,
        calls-Timed claws laws a ring store calls e t made few m points,
      )
