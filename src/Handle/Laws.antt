-- ===== src/Handle/Laws.antt =====
-- `FdHandle` of pysrc/century_ring/handle.py: when close(2) is called, and by which handle.
use century_ring.Common.{
  ℕ, zero, suc, ◌+◌, ◌≤◌, ◌≡◌, ◌↔◌, ◌⊎◌, refl, Bool, true, false, not, ◌&&◌, Option, none, some,
  List, [], ◌∷◌, ◌++◌, length, get_elem?, get_elem?-set_self, get_elem?-append, lt-length_of_some,
  set, ◌==◌, if◌then◌else◌, inl, inr, Option-cases, Bool-cases, arith,
}
use century_ring.Common.Int.{ℤ, pos, negsuc, abs, is_negative}
use century_ring.Common.Exec.{Result-cases, ok, err, ◌>>=◌, os_error}
use century_ring.Platform.{Os}
use century_ring.Helpers.{raise_for_cqe}
use century_ring.Ring.State.{CompletionEvent}
use century_ring.Handle.{
  FdHandle, HandleStore, new_handle, from_completion_event, mark_closed, fd_of, close_called,
}
use century_ring.Handle

-- A call on handles, by anyone who holds a reference.
pub data HandleCall : Type 0 where
  from_event : CompletionEvent → HandleCall
  mark close exit : ℕ → HandleCall

module _ ⦃o : Os⦄ where
  abbrev pub run_handle_call : HandleCall → HandleStore → HandleStore
  run_handle_call (from_event event) s = (from_completion_event event s).1
  run_handle_call (HandleCall.mark ref) s = (mark_closed ref s).1
  run_handle_call (HandleCall.close ref) s = (Handle.close ref s).1
  run_handle_call (HandleCall.exit ref) s = (Handle.exit ref s).1

  -- one after the other, also after one that raised
  abbrev pub run_handle_calls : List HandleCall → HandleStore → HandleStore
  run_handle_calls [] s = s
  run_handle_calls (call ∷ calls) s = run_handle_calls calls (run_handle_call call s)

abbrev pub same_fd : ℤ → ℤ → Bool
same_fd (pos m) (pos n) = m == n
same_fd (negsuc m) (negsuc n) = m == n
same_fd _ _ = false

-- how many calls of close(2) were for this fd
abbrev pub closes_of : ℤ → List ℤ → ℕ
closes_of fd [] = 0
closes_of fd (x ∷ l) = if same_fd x fd then suc (closes_of fd l) else closes_of fd l

-- how many handles of this fd are closed
abbrev pub closed_handles : ℤ → List FdHandle → ℕ
closed_handles fd [] = 0
closed_handles fd (h ∷ l) =
    if same_fd h.fd fd && h.close_called then suc (closed_handles fd l) else closed_handles fd l

closed_handles-set :
    (fd : ℤ) (l : List FdHandle) (ref : ℕ) {h : FdHandle}
    → get_elem? l ref ≡ some h
    → closed_handles fd (set l ref (record h { close_called = true }))
      ≡ (if same_fd h.fd fd && not h.close_called then 1 else 0) + closed_handles fd l
closed_handles-set fd [] ref e = cc
closed_handles-set fd (x ∷ l) zero {h} e = let same : x ≡ h = ground arith in rw same (ground arith)
closed_handles-set fd (x ∷ l) (suc ref) e = ground (arith, closed_handles-set fd l ref e)

closed_handles-append :
    (fd fd' : ℤ) (l : List FdHandle)
    → closed_handles fd (l ++ record { fd = fd'; close_called = false } ∷ []) ≡ closed_handles fd l
closed_handles-append fd fd' [] = ground arith
closed_handles-append fd fd' (x ∷ l) = ground (arith, closed_handles-append fd fd' l)

-- Each closed handle accounts for at most one call.
abbrev pub ClosesOnce : HandleStore → Type 0
ClosesOnce s = (fd : ℤ) → closes_of fd s.close_calls ≤ closed_handles fd s.handles

module _ ⦃o : Os⦄ where
  mark_closed-ClosesOnce :
      (ref : ℕ) (s : HandleStore) → ClosesOnce s → ClosesOnce (mark_closed ref s).1
  unfolding mark_closed ◌>>=◌
  mark_closed-ClosesOnce ref s h fd = elim (Option-cases (get_elem? s.handles ref)) [
    | inl none_there ↦ rw none_there (h fd)
    | inr (x, there) ↦ rw there (omega (arith, h fd, closed_handles-set fd s.handles ref there))
  ]

  -- an object that is there: closed before, or called now
  close-at :
      (ref : ℕ) (s : HandleStore) {x : FdHandle}
      → get_elem? s.handles ref ≡ some x
      → ClosesOnce s
      → ClosesOnce (Handle.close ref s).1
  unfolding Handle.close ◌>>=◌
  close-at ref s {x} there h fd = elim (Bool-cases x.close_called) [
    | inl before ↦ rw there (rw before (h fd))
    | inr now ↦ rw there (rw now (ground (arith, h fd, closed_handles-set fd s.handles ref there)))
  ]

  close-ClosesOnce : (ref : ℕ) (s : HandleStore) → ClosesOnce s → ClosesOnce (Handle.close ref s).1
  unfolding Handle.close ◌>>=◌
  close-ClosesOnce ref s h = elim (Option-cases (get_elem? s.handles ref)) [
    | inl none_there ↦ rw none_there h
    | inr (x, there) ↦ close-at ref s there h
  ]

  exit-store : (ref : ℕ) (s : HandleStore) → (Handle.exit ref s).1 ≡ (Handle.close ref s).1
  unfolding Handle.exit ◌>>=◌
  exit-store ref s = elim (Result-cases (Handle.close ref s).0) [
    | inl (x, done) ↦ rw done refl
    | inr (e, failed) ↦ rw failed refl
  ]

  run_handle_call-ClosesOnce :
      (call : HandleCall) (s : HandleStore) → ClosesOnce s → ClosesOnce (run_handle_call call s)
  unfolding from_completion_event new_handle raise_for_cqe ◌>>=◌
  run_handle_call-ClosesOnce (from_event event) s h fd =
      ground (arith, h fd, closed_handles-append fd event.result s.handles)
  run_handle_call-ClosesOnce (HandleCall.mark ref) s h fd = mark_closed-ClosesOnce ref s h fd
  run_handle_call-ClosesOnce (HandleCall.close ref) s h fd = close-ClosesOnce ref s h fd
  run_handle_call-ClosesOnce (HandleCall.exit ref) s h fd =
      rw (exit-store ref s) (close-ClosesOnce ref s h fd)

  -- From a store where each call of close(2) is accounted for by a closed handle of that fd, every
  -- sequence of calls on handles, raising or not, leaves one: no handle closes its fd twice.
  pub closed_at_most_once :
      (calls : List HandleCall) (s : HandleStore)
      → ((fd : ℤ) → closes_of fd s.close_calls ≤ closed_handles fd s.handles)
      → (fd : ℤ)
      → closes_of fd (run_handle_calls calls s).close_calls
        ≤ closed_handles fd (run_handle_calls calls s).handles
  closed_at_most_once [] s h = h
  closed_at_most_once (call ∷ calls) s h =
      closed_at_most_once calls (run_handle_call call s) (run_handle_call-ClosesOnce call s h)

  close_outcome-ok : (errno : Option ℕ) → (Handle.close_outcome errno ≡ ok tt) ↔ (errno ≡ none)
  close_outcome-ok none = (λ _. refl, λ _. refl)
  close_outcome-ok (some errno) = ((λ h. absurd (ground arith)), λ h. absurd (ground arith))

  -- A handle that is closed, by `close` or by `mark_closed`: another `close` succeeds, makes no
  -- system call and changes nothing. One that is not: `close` makes one call of close(2), with its
  -- fd; whether the call fails decides whether `close` raises, and the handle is closed either way.
  pub close_outcomes :
      (ref : ℕ) (s : HandleStore) (x : FdHandle)
      → get_elem? s.handles ref ≡ some x
      → let after = (Handle.close ref s).1 in
        (((x.close_called ≡ true) × (Handle.close ref s ≡ (ok tt, s)))
          ⊎ ((x.close_called ≡ false)
              × (after.close_calls ≡ x.fd ∷ s.close_calls)
              × (((Handle.close ref s).0 ≡ ok tt) ↔ (o.close s.close_calls x.fd ≡ none))))
        × (Handle.close ref after ≡ (ok tt, after))
        × ((close_called ref after).0 ≡ ok true)
  unfolding Handle.close close_called ◌>>=◌
  close_outcomes ref s x there =
      let stays =
        get_elem?-set_self s.handles ref (record x { close_called = true })
          (lt-length_of_some s.handles ref there) in
      elim (Bool-cases x.close_called) [
        | inl before ↦ rw there (rw before (rw there (rw before (inl (refl, refl), refl, refl))))
        | inr now ↦ rw there (
            rw now (
              rw stays
                (inr (refl, refl, close_outcome-ok (o.close s.close_calls x.fd)), refl, refl)))
      ]

-- An event with a negative result gives no handle, and raises the OSError of its errno; any other
-- one gives a new handle, open, of the fd in the result.
pub from_completion_event_outcomes :
    (event : CompletionEvent) (s : HandleStore)
    → let (made, after) = from_completion_event event s in
      ((is_negative event.result ≡ true) × (made ≡ err (os_error (abs event.result))) × (after ≡ s))
      ⊎ ((is_negative event.result ≡ false)
          × (made ≡ ok (length s.handles))
          × (fd_of (length s.handles) after ≡ (ok event.result, after))
          × (close_called (length s.handles) after ≡ (ok false, after)))
unfolding from_completion_event new_handle raise_for_cqe fd_of close_called ◌>>=◌
from_completion_event_outcomes event s = elim (Bool-cases (is_negative event.result)) [
  | inl failed ↦ rw failed (inl (refl, refl, refl))
  | inr fine ↦
      let new : FdHandle = record { fd = event.result; close_called = false } in
      rw fine (rw (get_elem?-append s.handles new) (inr (refl, refl, refl, refl)))
]
