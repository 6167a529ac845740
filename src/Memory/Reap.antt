-- ===== src/Memory/Reap.antt =====
-- `get_completion_entries` of src/ring.rs under the invariant: the buffers it takes out of the ring
-- are those of completed entries.
use century_ring.Common.{
  ℕ, zero, suc, ◌+◌, ◌≤◌, ◌≡◌, refl, some, inl, inr, List, [], ◌∷◌, ◌++◌, In, Option-cases,
  List-cases, arith,
}
use century_ring.Common.Dict.{Dict}
use century_ring.Common.Exec.{Result, ok, err}
use century_ring.Platform.{Sqe, Cqe, points_to, on_heap, Platform}
use century_ring.Platform.Laws.{submissions_with, completions_with, PlatformLaws}
use century_ring.Ring.State.{Owned, Process, set_ring}
use century_ring.Ring.Reap.{drain, take_results, finish, get_completion_entries}
use century_ring.Ring.Completions.{lookup-take_results}
use century_ring.Memory.Invariant.{Shrinks, counted, Covers, Covers-shrink, IsSafe, pending_of}

completions_with-append :
    (u : ℕ) (l m : List Cqe)
    → completions_with u (l ++ m) ≡ completions_with u l + completions_with u m
completions_with-append u [] m = omega arith
completions_with-append u (x ∷ l) m = ground (arith, completions_with-append u l m)

-- `reaped` has a place for each entry of `before` that `after` lacks.
pub record Leaves (reaped : List Cqe) (before after : List Sqe) : Type 0 where
  pub keeps : (e : Sqe) → In e after → In e before
  pub counts :
      (u : ℕ) → completions_with u reaped + submissions_with u after ≤ submissions_with u before

module _ {R : Type 0} ⦃p : Platform R⦄ (laws : PlatformLaws R) (before : List Sqe) where
  abbrev pub DrainLeaves : Result (List Cqe) × R → Type 0
  DrainLeaves (ok entries, r) = Leaves entries before (laws.outstanding r)
  DrainLeaves (err e, r) = Shrinks (laws.outstanding r) before

  Leaves-batch :
      (entries : List Cqe) (r : R)
      → Leaves entries before (laws.outstanding r)
      → Leaves (entries ++ (p.completion r).0) before (laws.outstanding (p.completion r).1)
  Leaves-batch entries r h = record {
    keeps = λ e m. h.keeps e (laws.completion_keeps r e m);
    counts = λ u. omega (
      arith,
      h.counts u,
      laws.completion_counts r u,
      completions_with-append u entries (p.completion r).0,
    );
  }

  pub drain-Leaves :
      (batches : ℕ) (entries : List Cqe) (r : R)
      → Leaves entries before (laws.outstanding r)
      → DrainLeaves (drain batches entries r)
  unfolding drain
  drain-Leaves zero entries r h = record {
    keeps = h.keeps;
    counts = λ u. omega (arith, h.counts u);
  }
  drain-Leaves (suc batches) entries r h = elim (List-cases (p.completion r).0) [
    | inl empty ↦ rw empty (record {
      keeps = λ e m. h.keeps e (laws.completion_keeps r e m);
      counts = λ u. omega (arith, h.counts u, laws.completion_counts r u);
    })
    | inr (x, xs, more) ↦ rw more (
        rw more at (
          drain-Leaves batches (entries ++ (p.completion r).0) (p.completion r).1
            (Leaves-batch entries r h)))
  ]

  module _ (counter : ℕ) where
    -- An entry that is still outstanding has no completion among those read.
    spared :
        (owned : Dict Owned) (entries : List Cqe) (after : List Sqe)
        → Covers owned counter before
        → Leaves entries before after
        → (e : Sqe) (b : ℕ) → In e after
        → points_to e.op ≡ some (on_heap b)
        → completions_with e.user_data entries ≡ 0
    spared owned entries after safe left e b m h = omega (
      arith,
      counted m,
      left.counts e.user_data,
      safe.once e.user_data (safe.pointing e b (left.keeps e m) h),
    )

    take_results-Covers :
        (r : R) (owned : Dict Owned) (entries : List Cqe) (after : List Sqe)
        → Covers owned counter before
        → Leaves entries before after
        → Covers (take_results r entries owned).1 counter after
    take_results-Covers r owned entries after safe left = record {
      owns = λ e b m h.
          rw
            (lookup-take_results e.user_data r entries owned
              (spared owned entries after safe left e b m h))
            (safe.owns e b (left.keeps e m) h);
      once = λ u h. omega (arith, left.counts u, safe.once u h);
      fresh = λ u h k. omega (arith, left.counts u, safe.fresh u h k);
      pointing = λ e b m h. safe.pointing e b (left.keeps e m) h;
      frames = λ e t m h. safe.frames e t (left.keeps e m) h;
    }

module _ {R : Type 0} ⦃p : Platform R⦄ (laws : PlatformLaws R) where
  finish-IsSafe :
      (s : Process R) (x : Result (List Cqe) × R)
      → IsSafe laws s.ring
      → DrainLeaves laws (pending_of laws s.the_io_uring) x
      → IsSafe laws (finish s x).1.ring
  finish-IsSafe s (err e, r) safe left = Covers-shrink left safe
  finish-IsSafe s (ok entries, r) safe left =
      take_results-Covers laws (pending_of laws s.the_io_uring) s.user_data_counter r s.owned_data
        entries (laws.outstanding r) safe left

  pub get_completion_entries-IsSafe :
      (batches : ℕ) (s : Process R)
      → IsSafe laws s.ring
      → IsSafe laws (get_completion_entries batches s).1.ring
  unfolding get_completion_entries
  get_completion_entries-IsSafe batches s safe = elim (Option-cases s.the_io_uring) [
    | inl closed ↦ rw closed (rw closed at safe)
    | inr (r, opened) ↦ rw opened (
        finish-IsSafe (set_ring r s) (drain batches [] r) (rw opened at safe) (
          drain-Leaves laws (laws.outstanding r) batches [] r
            (record { keeps = λ e m. m; counts = λ u. omega arith })))
  ]

module _ {R : Type 0} ⦃p : Platform R⦄ where
  finish-counter :
      (s : Process R) (x : Result (List Cqe) × R)
      → (finish s x).1.user_data_counter ≡ s.user_data_counter
  finish-counter s (err e, r) = refl
  finish-counter s (ok entries, r) = refl

  pub get_completion_entries-counter :
      (batches : ℕ) (s : Process R)
      → (get_completion_entries batches s).1.user_data_counter ≡ s.user_data_counter
  unfolding get_completion_entries
  get_completion_entries-counter batches s = elim (Option-cases s.the_io_uring) [
    | inl closed ↦ rw closed
    | inr (r, opened) ↦ rw opened (finish-counter (set_ring r s) (drain batches [] r))
  ]
