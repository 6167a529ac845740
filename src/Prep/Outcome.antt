-- ===== src/Prep/Outcome.antt =====
-- src/files.rs, src/network.rs and src/shared.rs: what a preparing function may do to the ring
-- object.
pub mod Steps
pub mod Functions
use century_ring.Common.{
  true, false, ℕ, ◌≡◌, refl, sym, ap, ◌∙◌, none, some, inl, inr, Bool, String, Option, List, ◌∷◌,
  Bool-cases, Option-cases,
}
use mathlib.Core.Path.{subst}
use century_ring.Common.Int.{ℤ}
use century_ring.Common.Dict.{insert}
use century_ring.Common.Exec.{
  Error, Result, ok, err, Exec, lift, or_raise, raise_if, modify, ◌>>=◌, continue,
}
use century_ring.Common.Keeps.{Keeps, Gives, Gives-bind, Gives-bind_known}
use century_ring.Platform.{Sqe, points_to, on_heap, Opcode, Crates, Platform}
use century_ring.Platform.Laws.{PlatformLaws}
use century_ring.Ring.State.{OwnedData, Owned, TheIoRing, Process, own, allocate, require_support}
use century_ring.Ring.Queue.{autosubmit}
use century_ring.Memory.Invariant.{Shrinks, Shrinks-refl, pending_of}
use century_ring.Memory.Queue.{Pushed, autosubmit-Pushed}

-- what an entry is to say, with the data that the ring is to own for it
abbrev pub Asking : Type 1
Asking = Sqe → Option OwnedData → Type 0

module _ {R : Type 0} ⦃p : Platform R⦄ (laws : PlatformLaws R) where
  abbrev pub with_queue : TheIoRing R → Option R → TheIoRing R
  with_queue ring o = record ring { the_io_uring = o }

  -- By what is asked for and by the user data: it raises, and the ring object is as before but for a
  -- submission of what was queued; or it pushes one entry with this user data, which points nowhere;
  -- or one that points into an allocation, which it makes the ring own under the user data.
  pub data PrepOutcome (asks : Asking) (u : ℕ) (ring : TheIoRing R)
      : Result Unit → TheIoRing R → Type 0 where
    not_pushed :
        (e : Error) (o : Option R) {ring' : TheIoRing R}
        → ring' ≡ with_queue ring o
        → Shrinks (pending_of laws o) (pending_of laws ring.the_io_uring)
        → PrepOutcome asks u ring (err e) ring'
    pushed :
        (entry : Sqe) (r : R) (q : List Sqe) {ring' : TheIoRing R}
        → entry.user_data ≡ u
        → asks entry none
        → points_to entry.op ≡ none
        → ring' ≡ with_queue ring (some r)
        → laws.outstanding r ≡ entry ∷ q
        → Shrinks q (pending_of laws ring.the_io_uring)
        → PrepOutcome asks u ring (ok tt) ring'
    handed_over :
        (entry : Sqe) (o : Owned) (r : R) (q : List Sqe) {ring' : TheIoRing R}
        → entry.user_data ≡ u
        → asks entry (some o.content)
        → points_to entry.op ≡ some (on_heap o.block)
        → ring' ≡ record ring { the_io_uring = some r; owned_data = insert u o ring.owned_data }
        → laws.outstanding r ≡ entry ∷ q
        → Shrinks q (pending_of laws ring.the_io_uring)
        → PrepOutcome asks u ring (ok tt) ring'

  pub PrepOutcome-asks :
      {asks asks' : Asking} {u : ℕ} {ring : TheIoRing R} {x : Result Unit} {after : TheIoRing R}
      → ((e : Sqe) (content : Option OwnedData) → asks e content → asks' e content)
      → PrepOutcome asks u ring x after
      → PrepOutcome asks' u ring x after
  PrepOutcome-asks f (not_pushed e o same shrinks) = not_pushed e o same shrinks
  PrepOutcome-asks f (pushed e r q carries asked plain same at_head shrinks) =
      pushed e r q carries (f e none asked) plain same at_head shrinks
  PrepOutcome-asks f (handed_over e o r q carries asked points same at_head shrinks) =
      handed_over e o r q carries (f e (some o.content) asked) points same at_head shrinks

  module _ (asks : Asking) (u : ℕ) (ring : TheIoRing R) where
    -- until the push, the ring object is untouched
    abbrev pub SameRing : Process R → Type 0
    SameRing s = s.ring ≡ ring

    abbrev pub Outcome : Result Unit → Process R → Type 0
    Outcome result s = PrepOutcome asks u ring result s.ring

    abbrev pub Prepares : Exec (Process R) Unit → Type 0
    Prepares = Gives SameRing Outcome

    pub raises : (s : Process R) (e : Error) → SameRing s → Outcome (err e) s
    raises s e same = not_pushed e ring.the_io_uring same (Shrinks-refl _)

    SameRing-Keeps :
        {A : Type 0} (m : Exec (Process R) A)
        → ((s : Process R) → (m s).1.ring ≡ s.ring)
        → Keeps SameRing SameRing m
    SameRing-Keeps m h = record { at = λ s same. h s ∙ same }

    pub before :
        {A : Type 0} (m : Exec (Process R) A) {rest : A → Exec (Process R) Unit}
        → ((s : Process R) → (m s).1.ring ≡ s.ring)
        → ((a : A) → Prepares (rest a))
        → Prepares (m >>= rest)
    before m h = Gives-bind (SameRing-Keeps m h) raises

    -- what the call returns tells something
    pub before_known :
        {A : Type 0} {Known : A → Type 0} (m : Exec (Process R) A)
        {rest : A → Exec (Process R) Unit}
        → ((s : Process R) → (m s).1.ring ≡ s.ring)
        → ((s : Process R) (a : A) → (m s).0 ≡ ok a → Known a)
        → ((a : A) → Known a → Prepares (rest a))
        → Prepares (m >>= rest)
    before_known m h known = Gives-bind_known (SameRing-Keeps m h) (λ s a _. known s a) raises

module _ {R : Type 0} ⦃p : Platform R⦄ (laws : PlatformLaws R) (u : ℕ) (ring : TheIoRing R) where
  pub Prepares-asks :
      {asks asks' : Asking} {m : Exec (Process R) Unit}
      → ((e : Sqe) (content : Option OwnedData) → asks e content → asks' e content)
      → Prepares laws asks u ring m
      → Prepares laws asks' u ring m
  Prepares-asks f h = record { gives = λ s same. PrepOutcome-asks laws f (h.gives s same) }

module _ {R : Type 0} ⦃p : Platform R⦄ (laws : PlatformLaws R) (asks : Asking) where
  own-outcome :
      (e : Sqe) (o : Owned) (s : Process R) (out : Result Unit × Process R)
      → asks e (some o.content)
      → points_to e.op ≡ some (on_heap o.block)
      → Pushed laws e s out
      → let after = continue out.0 (λ _. modify (own e.user_data o)) out.1 in
        PrepOutcome laws asks e.user_data s.ring after.0 after.1.ring
  unfolding ◌>>=◌
  own-outcome e o s (ok _, s') asked points (r, q, left, at_head, shrinks) =
      handed_over e o r q refl asked points (rw left refl) at_head shrinks
  own-outcome e o s (err raised, s') asked points (queue, left, shrinks) =
      not_pushed raised queue (rw left refl) shrinks

  plain-outcome :
      (e : Sqe) (s : Process R) (out : Result Unit × Process R)
      → asks e none
      → points_to e.op ≡ none
      → Pushed laws e s out
      → PrepOutcome laws asks e.user_data s.ring out.0 out.1.ring
  plain-outcome e s (ok _, s') asked plain (r, q, left, at_head, shrinks) =
      pushed e r q refl asked plain (rw left refl) at_head shrinks
  plain-outcome e s (err raised, s') asked plain (queue, left, shrinks) =
      not_pushed raised queue (rw left refl) shrinks

  module _ (ring : TheIoRing R) where
    pub push_and_own :
        (e : Sqe) (o : Owned)
        → asks e (some o.content)
        → points_to e.op ≡ some (on_heap o.block)
        → Prepares laws asks e.user_data ring (autosubmit e >>= λ _. modify (own e.user_data o))
    unfolding ◌>>=◌
    push_and_own e o asked points = record {
      gives = λ s same.
          subst
            (λ ring.
              Outcome laws asks e.user_data ring
                (continue (autosubmit e s).0 (λ _. modify (own e.user_data o)) (autosubmit e s).1).0
                (continue (autosubmit e s).0 (λ _. modify (own e.user_data o))
                  (autosubmit e s).1).1)
            same (own-outcome e o s (autosubmit e s) asked points (autosubmit-Pushed laws e s));
    }

    pub push_plain :
        (e : Sqe)
        → asks e none
        → points_to e.op ≡ none
        → Prepares laws asks e.user_data ring (autosubmit e)
    push_plain e asked plain = record {
      gives = λ s same.
          subst (λ ring. Outcome laws asks e.user_data ring (autosubmit e s).0 (autosubmit e s).1)
            same (plain-outcome e s (autosubmit e s) asked plain (autosubmit-Pushed laws e s));
    }
