-- ===== src/Tickets/Protocol.antt =====
-- The protocol that a user of `IoUring` relies on: user data that was returned is new, and an event
-- answers one operation that is in flight.
use mathlib.Core.Path.{subst}
use century_ring.Common.{
  ℕ, suc, ◌+◌, ◌≤◌, ◌<◌, ◌≡◌, List, [], ◌∷◌, ◌==◌, if◌then◌else◌, In, here, there, Bool-cases, inl,
  inr, arith,
}

-- What a user sees: a preparing method returned `u`; an event came back with it.
pub data Event : Type 0 where
  issued : ℕ → Event
  reported : ℕ → Event

abbrev pub count : ℕ → List ℕ → ℕ
count u [] = 0
count u (x ∷ l) = if x == u then suc (count u l) else count u l

-- without its first `u`
abbrev pub erase : ℕ → List ℕ → List ℕ
erase u [] = []
erase u (x ∷ l) = if x == u then l else x ∷ erase u l

pub count-erase :
    (v : ℕ) {u : ℕ} {l : List ℕ}
    → In u l
    → count v (erase u l) + (if u == v then 1 else 0) ≡ count v l
count-erase v here = ground arith
count-erase v (there m) = ground (arith, count-erase v m)

pub In-count : (u : ℕ) (l : List ℕ) → 1 ≤ count u l → In u l
In-count u [] h = absurd (omega arith)
In-count u (x ∷ l) h = elim (Bool-cases (x == u)) [
  | inl same ↦ let first : In u (u ∷ l) = here in subst (λ y. In u (y ∷ l)) (ground arith) first
  | inr other ↦ there (In-count u l (ground arith))
]

-- The traces that the protocol allows from here on, when the next user data is at least `next` and
-- operations with the user data `in_flight` have not been answered.
pub data Allowed : ℕ → List ℕ → List Event → Type 0 where
  stop : {next : ℕ} {in_flight : List ℕ} → Allowed next in_flight []
  issue :
      {next : ℕ} {in_flight : List ℕ} {events : List Event} (u : ℕ)
      → next ≤ u
      → Allowed (suc u) (u ∷ in_flight) events
      → Allowed next in_flight (issued u ∷ events)
  report :
      {next : ℕ} {in_flight : List ℕ} {events : List Event} (u : ℕ)
      → In u in_flight
      → Allowed next (erase u in_flight) events
      → Allowed next in_flight (reported u ∷ events)

-- how often the trace reports `u`, and issues it
abbrev pub reports_of : ℕ → List Event → ℕ
reports_of u [] = 0
reports_of u (issued v ∷ events) = reports_of u events
reports_of u (reported v ∷ events) =
    if v == u then suc (reports_of u events) else reports_of u events

abbrev pub issues_of : ℕ → List Event → ℕ
issues_of u [] = 0
issues_of u (issued v ∷ events) = if v == u then suc (issues_of u events) else issues_of u events
issues_of u (reported v ∷ events) = issues_of u events

-- never more reports than issues
pub reports-issues :
    (u : ℕ) {next : ℕ} {in_flight : List ℕ} {events : List Event}
    → Allowed next in_flight events
    → reports_of u events ≤ count u in_flight + issues_of u events
reports-issues u stop = omega arith
reports-issues u (issue v fresh rest) = ground (arith, reports-issues u rest)
reports-issues u (report {in_flight = l} v m rest) =
    ground (arith, reports-issues u rest, count-erase u m)

pub issued_before :
    (u : ℕ) {next : ℕ} {in_flight : List ℕ} {events : List Event}
    → u < next
    → Allowed next in_flight events
    → issues_of u events ≡ 0
issued_before u old stop = omega arith
issued_before u old (issue v fresh rest) =
    ground (arith, issued_before u (omega (arith, old, fresh)) rest)
issued_before u old (report v m rest) = issued_before u old rest

pub issued_once :
    (u : ℕ) {next : ℕ} {in_flight : List ℕ} {events : List Event}
    → Allowed next in_flight events
    → issues_of u events ≤ 1
issued_once u stop = omega arith
issued_once u (issue v fresh rest) = elim (Bool-cases (v == u)) [
  | inl same ↦ ground (arith, issued_before u (ground arith) rest)
  | inr other ↦ ground (arith, issued_once u rest)
]
issued_once u (report v m rest) = issued_once u rest
