-- ===== src/Memory/Settled.antt =====
-- The invariant between two calls: the methods of `IoUring` (pysrc/century_ring/ring.py) that prepare
-- an operation keep it, and so do the calls that prepare nothing.
use century_ring.Common.{ℕ, suc, Bool, ◌≤◌, ◌<◌, ◌≡◌, List, ◌∷◌, arith}
use mathlib.Core.Path.{subst}
use century_ring.Common.Dict.{Dict, insert}
use century_ring.Common.Exec.{Result}
use century_ring.Platform.{Sqe, Platform}
use century_ring.Platform.Laws.{submissions_with, PlatformLaws}
use century_ring.Ring.State.{Owned, TheIoRing, Process}
use century_ring.Prep.Outcome.{Asking, PrepOutcome, not_pushed, pushed, handed_over}
use century_ring.Client.State.{World}
use century_ring.Client.Outcome.{drawn_ring, MethodOutcome, early, failed, returned}
use century_ring.Memory.Invariant.{
  reserved, Covers, Shrinks, Covers-shrink, Covers-Fades, Covers-later, Covers-own, Covers-plain,
  IsSafe, pending_of,
}
use century_ring.Memory.Quiet.{Quiet}

module _ {R : Type 0} ⦃p : Platform R⦄ (laws : PlatformLaws R) where
  -- the invariant, for a counter that has reached at most `limit`
  pub record Settled (limit : ℕ) (ring : TheIoRing R) : Type 0 where
    pub safe : IsSafe laws ring
    pub counted : ring.user_data_counter ≤ limit

  module _ (limit : ℕ) (ring : TheIoRing R) (low : limit < reserved)
      (settled : Settled limit ring) where
    drawn_counter : (drawn_ring ring).user_data_counter ≡ suc ring.user_data_counter
    drawn_counter = omega (arith, settled.counted)

    abbrev CoveredBy : Dict Owned → List Sqe → Type 0
    CoveredBy owned = Covers owned (drawn_ring ring).user_data_counter

    -- the entries from before, in the queue that the new entry joins
    left_covered :
        {q : List Sqe} → Shrinks q (pending_of laws ring.the_io_uring) → CoveredBy ring.owned_data q
    left_covered shrinks =
        Covers-later (omega (arith, drawn_counter)) (Covers-shrink shrinks settled.safe)

    unused_left :
        {q : List Sqe} (u : ℕ)
        → u ≡ ring.user_data_counter
        → Shrinks q (pending_of laws ring.the_io_uring)
        → submissions_with u q ≡ 0
    unused_left u same shrinks = omega (
      arith,
      shrinks.counts u,
      settled.counted,
      settled.safe.fresh u (omega arith) (omega (arith, settled.counted)),
    )

    prepare-Settled :
        {asks : Asking} {x : Result Unit} {after : TheIoRing R}
        → PrepOutcome laws asks ring.user_data_counter (drawn_ring ring) x after
        → Settled (suc limit) after
    prepare-Settled (not_pushed e o same shrinks) = rw same (record {
      safe = left_covered shrinks;
      counted = omega (arith, drawn_counter, settled.counted);
    })
    prepare-Settled (pushed entry r q carries asked plain same at_head shrinks) = rw same (record {
      safe = rw at_head (
          Covers-plain _ _ entry q (left_covered shrinks) (unused_left _ carries shrinks)
            (omega (arith, drawn_counter)) plain);
      counted = omega (arith, drawn_counter, settled.counted);
    })
    prepare-Settled (handed_over entry o r q carries asked points same at_head shrinks) =
        rw same (record {
          safe = rw at_head (
              subst (λ u. CoveredBy (insert u o ring.owned_data) (entry ∷ q)) carries
                (Covers-own ring.owned_data _ entry q (left_covered shrinks)
                  (unused_left _ carries shrinks) (omega (arith, drawn_counter)) o points
                  (omega (arith, settled.counted))));
          counted = omega (arith, drawn_counter, settled.counted);
        })

  pub method-Settled :
      (limit : ℕ) (w : World R) {asks : Asking} {x : Result ℕ} {after : World R}
      → limit < reserved
      → Settled limit w.process.ring
      → MethodOutcome laws asks w x after
      → Settled (suc limit) after.process.ring
  method-Settled limit w low settled (early e same) =
      rw same (record { safe = settled.safe; counted = omega (arith, settled.counted) })
  method-Settled limit w low settled (failed e prepared kept) =
      prepare-Settled limit w.process.ring low settled prepared
  method-Settled limit w low settled (returned prepared marked) =
      prepare-Settled limit w.process.ring low settled prepared

  pub Quiet-Settled :
      {timed : Bool} (limit : ℕ) (s s' : Process R)
      → Quiet laws timed s s'
      → Settled limit s.ring
      → Settled (suc limit) s'.ring
  Quiet-Settled limit s s' quiet settled = rw quiet.same (record {
    safe = Covers-Fades quiet.fades settled.safe;
    counted = omega (arith, settled.counted);
  })
