-- ===== src/Ring/Returned.antt =====
-- `get_completion_entries` of src/ring.rs: which event brings which buffer back, and with what bytes.
use century_ring.Common.{
  ℕ, ◌-◌, ◌<◌, ◌≡◌, refl, ap, sym, inl, inr, Bool, true, false, ◌||◌, Option, none, some, List, [],
  ◌∷◌, ◌++◌, append-nil, map, length, take, replicate, take_all, Bool-cases, ◌==◌, if◌then◌else◌,
  arith,
}
use century_ring.Common.Int.{ℤ, pos, negsuc}
use century_ring.Common.Dict.{Dict, lookup, remove, lookup-remove}
use century_ring.Common.Exec.{Result, ok, err}
use century_ring.Platform.{Cqe, Platform}
use century_ring.Platform.Laws.{PlatformLaws}
use century_ring.Ring.State.{
  OwnedData, one_path, two_paths, buffer, sock_addr, Owned, CompletionEvent, Process, set_ring,
}
use century_ring.Ring.Reap.{
  fit, resize, returned_buffer, returned_content, drain, take_results, finish,
  get_completion_entries,
}
use century_ring.Ring.Reads.{drain-ReadsAll}

abbrev pub mem : ℕ → List ℕ → Bool
mem u [] = false
mem u (x ∷ l) = u == x || mem u l

-- the bytes that a result speaks of: as many as it counts, with zeros where the buffer had fewer
abbrev pub counted_bytes : ℤ → List ℕ → List ℕ
counted_bytes (pos n) buf = take n buf ++ replicate (n - length buf) 0
counted_bytes (negsuc n) buf = buf

fit-eq-counted_bytes : (result : ℤ) (buf : List ℕ) → fit result buf ≡ counted_bytes result buf
unfolding fit resize
fit-eq-counted_bytes (negsuc n) buf = refl
fit-eq-counted_bytes (pos n) buf = elim (Bool-cases (length buf == n)) [
  | inl same ↦
      let none_missing : n - length buf ≡ 0 = ground arith in
      rw same (rw none_missing (rw (take_all n buf (ground arith)) (sym (append-nil buf))))
  | inr other ↦ rw other refl
]

-- `left` is `owned` without what has been seen
record Without (seen : List ℕ) (owned left : Dict Owned) : Type 0 where
  pub at : (u : ℕ) → lookup u left ≡ (if mem u seen then none else lookup u owned)

Without-remove :
    (v : ℕ) {seen : List ℕ} {owned left : Dict Owned}
    → Without seen owned left
    → Without (v ∷ seen) owned (remove v left)
Without-remove v {left} h = record { at = λ u. ground (arith, h.at u, lookup-remove v u left) }

module _ {R : Type 0} ⦃p : Platform R⦄ where
  -- Only a buffer comes back, not a path or an address.
  abbrev pub bytes_of : R → ℤ → ℕ → OwnedData → Option (List ℕ)
  bytes_of r result block (buffer buf) = some (counted_bytes result (p.after_kernel r block buf))
  bytes_of r result block (one_path path) = none
  bytes_of r result block (two_paths from to) = none
  bytes_of r result block (sock_addr addr) = none

  abbrev pub handed_back : R → ℤ → Option Owned → Option (List ℕ)
  handed_back r result none = none
  handed_back r result (some o) = bytes_of r result o.block o.content

  -- An independent description: the first entry with a user data brings what is owned under it, and
  -- the others bring nothing. `seen` are the user data that have had their entry.
  abbrev pub buffers_for : R → Dict Owned → List ℕ → List Cqe → List (Option (List ℕ))
  buffers_for r owned seen [] = []
  buffers_for r owned seen (entry ∷ entries) =
      (if mem entry.user_data seen
        then none
        else handed_back r entry.result (lookup entry.user_data owned))
      ∷ buffers_for r owned (entry.user_data ∷ seen) entries

  content-eq-bytes_of :
      (r : R) (result : ℤ) (block : ℕ) (content : OwnedData)
      → returned_content r result block content ≡ bytes_of r result block content
  content-eq-bytes_of r result block (buffer buf) =
      ap some (fit-eq-counted_bytes result (p.after_kernel r block buf))
  content-eq-bytes_of r result block (one_path path) = refl
  content-eq-bytes_of r result block (two_paths from to) = refl
  content-eq-bytes_of r result block (sock_addr addr) = refl

  returned_buffer-if :
      (r : R) (result : ℤ) (b : Bool) (o : Option Owned)
      → returned_buffer r result (if b then none else o)
        ≡ (if b then none else handed_back r result o)
  returned_buffer-if r result true o = refl
  returned_buffer-if r result false none = refl
  returned_buffer-if r result false (some o) = content-eq-bytes_of r result o.block o.content

  buffers-take_results :
      (r : R) (entries : List Cqe) (seen : List ℕ) (owned left : Dict Owned)
      → Without seen owned left
      → map (λ event. event.buffer) (take_results r entries left).0
        ≡ buffers_for r owned seen entries
  unfolding take_results
  buffers-take_results r [] seen owned left h = refl
  buffers-take_results r (entry ∷ entries) seen owned left h =
      let u = entry.user_data in
      let rest =
        buffers-take_results r entries (u ∷ seen) owned (remove u left) (Without-remove u h) in
      rw rest (
        rw (h.at u) (
          ap (λ b. b ∷ buffers_for r owned (u ∷ seen) entries)
            (returned_buffer-if r entry.result (mem u seen) (lookup u owned))))

  finish-buffers :
      (s : Process R) (x : Result (List Cqe) × R) (entries : List Cqe)
      → x.0 ≡ ok entries
      → (events : List CompletionEvent) × ((finish s x).0 ≡ ok events)
        × (map (λ event. event.buffer) events ≡ buffers_for x.1 s.owned_data [] entries)
  finish-buffers s (err e, r) entries h = cc
  finish-buffers s (ok found, r) entries h =
      let same : entries ≡ found = cc in
      rw same (
        (take_results r found s.owned_data).0,
        refl,
        buffers-take_results r found [] s.owned_data s.owned_data (record { at = λ u. refl }),
      )

module _ {R : Type 0} ⦃p : Platform R⦄ (laws : PlatformLaws R) where
  -- On an open ring, with more rounds than batches to come, the reaping returns, and its events
  -- bring back, in their order, what the ring owned: the first event with a user data brings the
  -- buffer that was owned under it, with the bytes that the kernel left there, cut or filled up
  -- with zeros to the result's count, or whole with a negative result; every other event with that
  -- user data brings none, and neither does one whose owned value is a path or an address.
  pub get_completion_entries_buffers :
      (batches : ℕ) (s : Process R) {r : R}
      → s.the_io_uring ≡ some r
      → laws.batches r < batches
      → (entries : List Cqe) × (events : List CompletionEvent) × ((drain batches [] r).0
          ≡ ok entries)
        × ((get_completion_entries batches s).0 ≡ ok events)
        × (map (λ event. event.buffer) events
            ≡ buffers_for (drain batches [] r).1 s.owned_data [] entries)
  unfolding get_completion_entries
  get_completion_entries_buffers batches s {r} opened enough =
      let (entries, _, drain_eq, _) = drain-ReadsAll laws batches [] r enough in
      let drained = ap (λ out. out.0) drain_eq in
      rw opened (
        let (events, given, bring) =
          finish-buffers (set_ring r s) (drain batches [] r) entries drained in
        (entries, events, drained, given, bring))
