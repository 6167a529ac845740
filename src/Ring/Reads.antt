-- ===== src/Ring/Reads.antt =====
-- src/ring.rs: what the loop of `get_completion_entries` over the completion queue reads, described
-- without a loop, and that the loop reads it.
use century_ring.Common.{
  ℕ, zero, suc, ◌<◌, ◌≡◌, ◌≢◌, refl, sym, ap, ◌∙◌, inl, inr, List, [], ◌∷◌, ◌++◌, append-nil,
  append_assoc, List-cases, arith,
}
use century_ring.Common.Exec.{ok}
use century_ring.Platform.{Cqe, Platform}
use century_ring.Platform.Laws.{PlatformLaws}
use century_ring.Ring.Reap.{drain}

-- Reading `r` to its end gives these entries and leaves the last ring: each reading of the queue that
-- finds something is kept, and the next one goes on from what it left, until one finds nothing.
pub data ReadsAll {R : Type 0} ⦃p : Platform R⦄ : R → List Cqe → R → Type 0 where
  found_none : {r : R} → (p.completion r).0 ≡ [] → ReadsAll r [] (p.completion r).1
  found_some :
      {r r' : R} {rest : List Cqe}
      → (p.completion r).0 ≢ []
      → ReadsAll (p.completion r).1 rest r'
      → ReadsAll r ((p.completion r).0 ++ rest) r'

module _ {R : Type 0} ⦃p : Platform R⦄ (laws : PlatformLaws R) where
  drain-more :
      (batches : ℕ) (entries : List Cqe) (r : R) {x : Cqe} {xs : List Cqe}
      → (p.completion r).0 ≡ x ∷ xs
      → drain (suc batches) entries r
        ≡ drain batches (entries ++ (p.completion r).0) (p.completion r).1
  unfolding drain
  drain-more batches entries r more = rw more refl

  -- with more rounds than batches to come
  pub drain-ReadsAll :
      (batches : ℕ) (entries : List Cqe) (r : R)
      → laws.batches r < batches
      → (rest : List Cqe) × (r' : R) × (drain batches entries r ≡ (ok (entries ++ rest), r'))
        × ReadsAll r rest r'
  unfolding drain
  drain-ReadsAll zero entries r h = absurd (omega arith)
  drain-ReadsAll (suc batches) entries r h = elim (List-cases (p.completion r).0) [
    | inl empty ↦ (
      [],
      (p.completion r).1,
      rw empty (ap (λ l. (ok l, (p.completion r).1)) (sym (append-nil entries))),
      found_none empty,
    )
    | inr (x, xs, more) ↦
        let some_came : (p.completion r).0 ≢ [] = λ e. cc in
        let (rest, r', drained, reads) =
          drain-ReadsAll batches (entries ++ (p.completion r).0) (p.completion r).1
            (omega (arith, laws.completion_ends r some_came)) in
        (
          (p.completion r).0 ++ rest,
          r',
          drain-more batches entries r more
              ∙ drained
              ∙ ap (λ l. (ok l, r')) (append_assoc entries (p.completion r).0 rest),
          found_some some_came reads,
        )
  ]
