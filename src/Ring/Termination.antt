-- ===== src/Ring/Termination.antt =====
-- The two loops of src/ring.rs end: the fuel that the model gives them is enough, and more of it
-- changes nothing.
use century_ring.Common.{
  ℕ, zero, suc, ◌≤◌, ◌<◌, ◌≡◌, ◌≢◌, refl, sym, ap, ◌∙◌, inl, inr, Bool, true, false, Option, none,
  some, List, [], ◌++◌, List-cases, arith,
}
use century_ring.Common.Exec.{err, out_of_fuel}
use century_ring.Platform.{Sqe, Cqe, IoResult, done, failed, Platform}
use century_ring.Platform.Laws.{PlatformLaws}
use century_ring.Ring.State.{Process, set_ring}
use century_ring.Ring.Queue.{autosubmit_loop}
use century_ring.Ring.Reap.{drain, finish, get_completion_entries}
use century_ring.Ring.Autosubmit.{first_try, second_try, after_submit, autosubmit_loop-eq-tries}
use century_ring.Ring.Completions.{get_completion_entries_reports}

module _ {R : Type 0} ⦃p : Platform R⦄ where
  second_try_ends : (r : R) (x : Option R) → (second_try r x).0 ≢ err out_of_fuel
  second_try_ends r none h = cc
  second_try_ends r (some r') h = cc

  after_submit_ends : (e : Sqe) (x : IoResult ℕ × R) → (after_submit e x).0 ≢ err out_of_fuel
  after_submit_ends e (done n, r) h = second_try_ends r (p.push e r) h
  after_submit_ends e (failed errno, r) h = cc

  first_try_ends :
      (enabled : Bool) (e : Sqe) (r : R) (x : Option R)
      → (first_try enabled e r x).0 ≢ err out_of_fuel
  first_try_ends enabled e r (some r') h = cc
  first_try_ends true e r none h = after_submit_ends e (p.submit r) h
  first_try_ends false e r none h = cc

  -- The loop of `autosubmit` ends in its second round at the latest: with two rounds or more it
  -- always ends by a return or a raise of its own, and does the same whatever their number.
  pub autosubmit_loop_terminates :
      (rounds : ℕ) (enabled : Bool) (e : Sqe) (r : R)
      → 2 ≤ rounds
      → (autosubmit_loop rounds false enabled e r ≡ autosubmit_loop 2 false enabled e r)
        × ((autosubmit_loop rounds false enabled e r).0 ≢ err out_of_fuel)
  autosubmit_loop_terminates zero enabled e r enough = absurd (omega arith)
  autosubmit_loop_terminates (suc zero) enabled e r enough = absurd (omega arith)
  autosubmit_loop_terminates (suc (suc rounds)) enabled e r enough =
      let more = autosubmit_loop-eq-tries rounds enabled e r in
      (
        more ∙ sym (autosubmit_loop-eq-tries 0 enabled e r),
        λ h. first_try_ends enabled e r (p.push e r) (sym (ap (λ x. x.0) more) ∙ h),
      )

module _ {R : Type 0} ⦃p : Platform R⦄ (laws : PlatformLaws R) where
  drain_any_fuel :
      (m n : ℕ) (entries : List Cqe) (r : R)
      → laws.batches r < m
      → laws.batches r < n
      → drain m entries r ≡ drain n entries r
  unfolding drain
  drain_any_fuel zero n entries r h k = absurd (omega arith)
  drain_any_fuel (suc m) zero entries r h k = absurd (omega arith)
  drain_any_fuel (suc m) (suc n) entries r h k = elim (List-cases (p.completion r).0) [
    | inl empty ↦ rw empty refl
    | inr (x, xs, more) ↦
        let less = laws.completion_ends r (λ e. cc) in
        rw more (
          rw more at (
            drain_any_fuel m n (entries ++ (p.completion r).0) (p.completion r).1
              (omega (arith, less)) (omega (arith, less))))
  ]

  same_reaping :
      (m n : ℕ) (s : Process R) {r : R}
      → s.the_io_uring ≡ some r
      → laws.batches r < m
      → laws.batches r < n
      → get_completion_entries m s ≡ get_completion_entries n s
  unfolding get_completion_entries
  same_reaping m n s {r} opened h k =
      rw opened (ap (finish (set_ring r s)) (drain_any_fuel m n [] r h k))

  -- The loop over the completion queue ends: on an open ring, with more rounds than batches to
  -- come, the reaping returns, and gives and leaves the same whatever the number of rounds.
  pub get_completion_entries_terminates :
      (m n : ℕ) (s : Process R) {r : R}
      → s.the_io_uring ≡ some r
      → laws.batches r < m
      → laws.batches r < n
      → (get_completion_entries m s ≡ get_completion_entries n s)
        × ((get_completion_entries m s).0 ≢ err out_of_fuel)
  get_completion_entries_terminates m n s {r} opened h k =
      let (_, events, _, _, _, given, _, _) = get_completion_entries_reports laws m s opened h in
      (same_reaping m n s opened h k, λ out. cc)
