-- ===== src/Ring/Completions.antt =====
-- `get_completion_entries` and `should_be_ignored` of src/ring.rs.
use century_ring.Common.{
  ℕ, ◌-◌, ◌^◌, ◌≤◌, ◌<◌, ◌≡◌, ◌≢◌, ◌↔◌, refl, ap, ◌∙◌, true, inl, inr, Option, none, some, List, [],
  ◌∷◌, map, length, take, replicate, length-append, length-take, length-replicate, Bool-cases, All,
  ◌==◌, if◌then◌else◌, arith,
}
use century_ring.Common.Int.{ℤ, pos, negsuc, abs, is_negative}
use century_ring.Common.Dict.{Dict, lookup, remove, lookup-remove, lookup-remove_ne}
use century_ring.Common.Exec.{Result, ok, err}
use century_ring.Platform.{Cqe, Platform}
use century_ring.Platform.Laws.{completions_with, PlatformLaws}
use century_ring.Ring.State.{
  OwnedData, Owned, one_path, two_paths, buffer, sock_addr, CompletionEvent, Process, set_ring,
}
use century_ring.Ring.Reads.{ReadsAll, drain-ReadsAll}
use century_ring.Ring.Reap.{
  should_be_ignored, resize, fit, returned_buffer, returned_content, drain, take_results, finish,
  get_completion_entries,
}

-- A u64 carries the mark exactly from 2^63 on: the user data that the counter hands out does not,
-- below that, and the timeout's does.
pub should_be_ignored_iff :
    (event : CompletionEvent)
    → event.user_data < 2 ^ 64
    → (should_be_ignored event ≡ true) ↔ (2 ^ 63 ≤ event.user_data)
unfolding should_be_ignored
should_be_ignored_iff event small = ground arith

-- A buffer comes back with as many bytes as the result says, which were in it before the call, then
-- zeros; with an error result it comes back whole.
pub length-fit :
    (result : ℤ) (buf : List ℕ)
    → length (fit result buf) ≡ (if is_negative result then length buf else abs result)
unfolding fit resize
length-fit (negsuc n) buf = refl
length-fit (pos n) buf = elim (Bool-cases (length buf == n)) [
  | inl same ↦ rw same (ground arith)
  | inr other ↦ rw other (
      omega (
        arith,
        length-append (take n buf) (replicate (n - length buf) 0),
        length-take n buf,
        length-replicate {A = ℕ} (n - length buf) 0,
      ))
]

-- the part of an event that the kernel's entry holds
abbrev pub entry_of : CompletionEvent → Cqe
entry_of event = record { user_data = event.user_data; result = event.result }

-- a buffer that comes back with a count is as long as the count
abbrev pub FitsResult : Option (List ℕ) → ℤ → Type 0
FitsResult (some b) (pos n) = length b ≡ n
FitsResult (some b) (negsuc n) = Unit
FitsResult none result = Unit

abbrev pub BufferFits : CompletionEvent → Type 0
BufferFits event = FitsResult event.buffer event.result

module _ {R : Type 0} ⦃p : Platform R⦄ where
  pub entries-take_results :
      (r : R) (entries : List Cqe) (owned : Dict Owned)
      → map entry_of (take_results r entries owned).0 ≡ entries
  unfolding take_results
  entries-take_results r [] owned = refl
  entries-take_results r (x ∷ entries) owned =
      ap (λ l. x ∷ l) (entries-take_results r entries (remove x.user_data owned))

  removed_stays :
      (u : ℕ) (r : R) (entries : List Cqe) (owned : Dict Owned)
      → lookup u owned ≡ none
      → lookup u (take_results r entries owned).1 ≡ none
  unfolding take_results
  removed_stays u r [] owned h = h
  removed_stays u r (x ∷ entries) owned h =
      removed_stays u r entries (remove x.user_data owned)
        (ground (arith, lookup-remove x.user_data u owned))

  lookup-take_results_completed :
      (u : ℕ) (r : R) (entries : List Cqe) (owned : Dict Owned)
      → completions_with u entries ≢ 0
      → lookup u (take_results r entries owned).1 ≡ none
  unfolding take_results
  lookup-take_results_completed u r [] owned h = absurd (h refl)
  lookup-take_results_completed u r (x ∷ entries) owned h = elim (Bool-cases (x.user_data == u)) [
    | inl same ↦
        removed_stays u r entries (remove x.user_data owned)
          (ground (arith, lookup-remove x.user_data u owned))
    | inr other ↦
        lookup-take_results_completed u r entries (remove x.user_data owned) (ground arith)
  ]

  content-fits :
      (r : R) (result : ℤ) (block : ℕ) (content : OwnedData)
      → FitsResult (returned_content r result block content) result
  content-fits r result block (one_path path) = tt
  content-fits r result block (two_paths from to) = tt
  content-fits r result block (sock_addr addr) = tt
  content-fits r (pos n) block (buffer buf) = length-fit (pos n) (p.after_kernel r block buf)
  content-fits r (negsuc n) block (buffer buf) = tt

  returned_buffer-fits :
      (r : R) (result : ℤ) (owned : Option Owned)
      → FitsResult (returned_buffer r result owned) result
  returned_buffer-fits r result none = tt
  returned_buffer-fits r result (some o) = content-fits r result o.block o.content

  All-BufferFits :
      (r : R) (entries : List Cqe) (owned : Dict Owned)
      → All BufferFits (take_results r entries owned).0
  unfolding take_results
  All-BufferFits r [] owned = tt
  All-BufferFits r (x ∷ entries) owned = (
    returned_buffer-fits r x.result (lookup x.user_data owned),
    All-BufferFits r entries (remove x.user_data owned),
  )

  pub lookup-take_results :
      (u : ℕ) (r : R) (entries : List Cqe) (owned : Dict Owned)
      → completions_with u entries ≡ 0
      → lookup u (take_results r entries owned).1 ≡ lookup u owned
  unfolding take_results
  lookup-take_results u r [] owned h = refl
  lookup-take_results u r (x ∷ entries) owned h =
      lookup-take_results u r entries (remove x.user_data owned) (ground arith)
      ∙ lookup-remove_ne x.user_data u owned (ground arith)

module _ {R : Type 0} ⦃p : Platform R⦄ where
  -- what a reaping that found `entries` gives and leaves
  pub record Reported (entries : List Cqe) (before : Process R) (events : List CompletionEvent)
      (after : Process R) : Type 0 where
    pub in_order : map entry_of events ≡ entries
    pub fits : All BufferFits events
    pub released :
        (u : ℕ)
        → lookup u after.owned_data
          ≡ (if completions_with u entries == 0 then lookup u before.owned_data else none)

  lookup-taken :
      (u : ℕ) (r : R) (entries : List Cqe) (owned : Dict Owned)
      → lookup u (take_results r entries owned).1
        ≡ (if completions_with u entries == 0 then lookup u owned else none)
  lookup-taken u r entries owned = elim (Bool-cases (completions_with u entries == 0)) [
    | inl absent ↦ rw absent (lookup-take_results u r entries owned (ground arith))
    | inr there ↦ rw there (lookup-take_results_completed u r entries owned (ground arith))
  ]

  -- by the result of the loop
  finish-Reported :
      (s : Process R) (x : Result (List Cqe) × R) (entries : List Cqe)
      → x.0 ≡ ok entries
      → (events : List CompletionEvent) × ((finish s x).0 ≡ ok events)
        × Reported entries s events (finish s x).1
  finish-Reported s (err e, r) entries h = cc
  finish-Reported s (ok found, r) entries h =
      let same : entries ≡ found = cc in
      rw same (
        (take_results r found s.owned_data).0,
        refl,
        record {
          in_order = entries-take_results r found s.owned_data;
          fits = All-BufferFits r found s.owned_data;
          released = λ u. lookup-taken u r found s.owned_data;
        },
      )

module _ {R : Type 0} ⦃p : Platform R⦄ (laws : PlatformLaws R) where
  -- On an open ring, with more rounds than batches to come, the reaping returns: the queue is read to
  -- its end, and there is one event for each entry read, in their order and with their results; each
  -- buffer with a result that is not negative is as long as that; the owned data of the completed
  -- entries are released, and all others are kept; the ring is the one that the reading left.
  pub get_completion_entries_reports :
      (batches : ℕ) (s : Process R) {r : R}
      → s.the_io_uring ≡ some r
      → laws.batches r < batches
      → let out = get_completion_entries batches s in
        (entries : List Cqe) × (events : List CompletionEvent) × (r' : R) × ReadsAll r entries r'
        × (drain batches [] r ≡ (ok entries, r'))
        × (out.0 ≡ ok events)
        × (out.1.the_io_uring ≡ some r')
        × Reported entries s events out.1
  unfolding get_completion_entries
  get_completion_entries_reports batches s {r} opened enough =
      let (entries, r', drained, reads) = drain-ReadsAll laws batches [] r enough in
      rw (opened, drained)
        (let (events, given, reported) =
            finish-Reported (set_ring r s) (ok entries, r') entries refl in
          (entries, events, r', reads, refl, given, refl, reported))
