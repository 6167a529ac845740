-- ===== src/Ring/Reap.antt =====
-- src/ring.rs: completion events, and `get_completion_entries`.
use century_ring.Common.{
  ℕ, zero, suc, ◌-◌, ◌/◌, ◌^◌, ◌%◌, Bool, not, ◌||◌, Option, none, some, List, [], ◌∷◌, ◌++◌,
  length, take, replicate, ◌==◌, if◌then◌else◌,
}
use century_ring.Common.Int.{ℤ, abs, is_negative}
use century_ring.Common.Dict.{Dict, lookup, remove}
use century_ring.Common.Exec.{ok, err, Result, Exec, value_error, ring_closed, out_of_fuel}
use century_ring.Platform.{Cqe, Platform}
use century_ring.Ring.State.{OwnedData, Owned, buffer, CompletionEvent, Process, set_ring}

-- `(self.user_data & (1 << 63)) != 0`
unfoldable pub should_be_ignored : CompletionEvent → Bool
should_be_ignored event = not (event.user_data / 2 ^ 63 % 2 == 0)

-- `Vec::resize(n, 0)`
unfoldable pub resize : ℕ → List ℕ → List ℕ
resize n buf = take n buf ++ replicate (n - length buf) 0

-- the length that a buffer has once it is returned with the result `n`
unfoldable pub fit : ℤ → List ℕ → List ℕ
unfolding resize
fit result buf =
    if is_negative result || length buf == abs result then buf else resize (abs result) buf

-- `if completion.is_empty() { break }`
abbrev pub if_empty : {A B : Type 0} → List A → B → B → B
if_empty [] stop go_on = stop
if_empty (_ ∷ _) stop go_on = go_on

module _ {R : Type 0} ⦃p : Platform R⦄ where
  abbrev pub returned_content : R → ℤ → ℕ → OwnedData → Option (List ℕ)
  returned_content r result block (buffer buf) = some (fit result (p.after_kernel r block buf))
  returned_content r result block _ = none

  abbrev pub returned_buffer : R → ℤ → Option Owned → Option (List ℕ)
  returned_buffer r result none = none
  returned_buffer r result (some o) = returned_content r result o.block o.content

  -- the loop over `completion()`, by the batches that may come; the empty one ends it
  unfoldable pub drain : ℕ → List Cqe → Exec R (List Cqe)
  drain zero entries r = (err out_of_fuel, r)
  drain (suc batches) entries r =
      let (batch, r') = p.completion r in
      let rest = drain batches (entries ++ batch) r' in if_empty batch (ok entries, r') rest

  abbrev pub event_of : R → Dict Owned → Cqe → CompletionEvent
  event_of r owned entry = record {
    user_data = entry.user_data;
    result = entry.result;
    buffer = returned_buffer r entry.result (lookup entry.user_data owned);
  }

  -- the loop over the entries: each takes its owned data out of the ring
  unfoldable pub take_results : R → List Cqe → Dict Owned → List CompletionEvent × Dict Owned
  take_results r [] owned = ([], owned)
  take_results r (entry ∷ entries) owned =
      let (events, owned') = take_results r entries (remove entry.user_data owned) in
      (event_of r owned entry ∷ events, owned')

  abbrev pub finish : Process R → Result (List Cqe) × R → Result (List CompletionEvent) × Process R
  finish s (err e, r) = (err e, set_ring r s)
  finish s (ok entries, r) =
      let (events, owned) = take_results r entries s.owned_data in
      (ok events, record s { ring = record s.ring { the_io_uring = some r; owned_data = owned } })

  abbrev pub reap : ℕ → Process R → Option R → Result (List CompletionEvent) × Process R
  reap batches s none = (err (value_error ring_closed), s)
  reap batches s (some r) = finish s (drain batches [] r)

  unfoldable pub get_completion_entries : ℕ → Exec (Process R) (List CompletionEvent)
  get_completion_entries batches s = reap batches s s.the_io_uring
