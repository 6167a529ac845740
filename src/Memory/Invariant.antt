-- ===== src/Memory/Invariant.antt =====
-- The invariant of a ring object, and how it follows the queue.
use century_ring.Common.{
  ℕ, ◌≤◌, ◌<◌, ◌^◌, ◌≡◌, ◌≢◌, Bool, true, false, refl, ap, sym, ◌∙◌, ◌⊎◌, inl, inr, Option, none,
  some, List, [], ◌∷◌, In, here, there, arith,
}
use century_ring.Common.Dict.{Dict, lookup, insert, lookup-insert_self, lookup-insert_ne}
use century_ring.Platform.{Sqe, Timespec, Target, on_heap, in_frame, points_to, Platform}
use century_ring.Platform.Laws.{submissions_with, PlatformLaws}
use century_ring.Ring.State.{Owned, TheIoRing}
use century_ring.Ring.Queue.{timeout_user_data}

-- Values from here on carry the mark that `should_be_ignored` tests.
abbrev pub reserved : ℕ
reserved = 2 ^ 63

pub below_timeout : (u : ℕ) → u < reserved → u ≢ timeout_user_data
below_timeout u low same = omega (arith, low, same)

-- `q` may have fewer entries than `l`, and has no other.
pub record Shrinks (q l : List Sqe) : Type 0 where
  pub keeps : (e : Sqe) → In e q → In e l
  pub counts : (u : ℕ) → submissions_with u q ≤ submissions_with u l

pub Shrinks-refl : (l : List Sqe) → Shrinks l l
Shrinks-refl l = record { keeps = λ e m. m; counts = λ u. omega arith }

pub Shrinks-trans : {a b c : List Sqe} → Shrinks a b → Shrinks b c → Shrinks a c
Shrinks-trans h k = record {
  keeps = λ e m. k.keeps e (h.keeps e m);
  counts = λ u. omega (arith, h.counts u, k.counts u);
}

-- `q` has no entries that `l` lacks, except, if `timed` says so, timeouts, which point into a stack
-- frame.
pub record Fades (timed : Bool) (q l : List Sqe) : Type 0 where
  pub keeps : (e : Sqe) (b : ℕ) → In e q → points_to e.op ≡ some (on_heap b) → In e l
  pub frames :
      (e : Sqe) (t : Timespec)
      → In e q
      → points_to e.op ≡ some (in_frame t)
      → In e l ⊎ ((timed ≡ true) × (e.user_data ≡ timeout_user_data))
  pub counts : (u : ℕ) → u ≢ timeout_user_data → submissions_with u q ≤ submissions_with u l

pub Shrinks-Fades : {timed : Bool} {q l : List Sqe} → Shrinks q l → Fades timed q l
Shrinks-Fades h = record {
  keeps = λ e b m points. h.keeps e m;
  frames = λ e t m points. inl (h.keeps e m);
  counts = λ u ours. h.counts u;
}

pub Fades-refl : {timed : Bool} (l : List Sqe) → Fades timed l l
Fades-refl l = Shrinks-Fades (Shrinks-refl l)

pub Fades-trans :
    {timed : Bool} {a b c : List Sqe} → Fades timed a b → Fades timed b c → Fades timed a c
Fades-trans h k = record {
  keeps = λ e b m points. k.keeps e b (h.keeps e b m points) points;
  frames = λ e t m points. elim (h.frames e t m points) [
    | inl there_before ↦ k.frames e t there_before points
    | inr timeout ↦ inr timeout
  ];
  counts = λ u ours. omega (arith, h.counts u ours, k.counts u ours);
}

module _ {q l : List Sqe} (fades : Fades true q l) (e : Sqe) (t : Timespec)
    (points : points_to e.op ≡ some (in_frame t)) (carries : e.user_data ≡ timeout_user_data) where
  still_there : (d : Sqe) (b : ℕ) → In d (e ∷ q) → points_to d.op ≡ some (on_heap b) → In d l
  still_there d b here leads = cc
  still_there d b (there m) leads = fades.keeps d b m leads

  still_framed :
      (d : Sqe) (t : Timespec)
      → In d (e ∷ q)
      → points_to d.op ≡ some (in_frame t)
      → In d l ⊎ ((true ≡ true) × (d.user_data ≡ timeout_user_data))
  still_framed d t here leads = inr (refl, carries)
  still_framed d t (there m) leads = fades.frames d t m leads

  pub Fades-timeout : Fades true (e ∷ q) l
  Fades-timeout = record {
    keeps = still_there;
    frames = still_framed;
    counts = λ u ours. ground (arith, fades.counts u ours);
  }

-- an entry that is there is counted
pub counted : {e : Sqe} {l : List Sqe} → In e l → 1 ≤ submissions_with e.user_data l
counted here = ground arith
counted (there m) = ground (arith, counted m)

abbrev target_block : Option Target → Option ℕ
target_block (some (on_heap b)) = some b
target_block _ = none

abbrev pub block_of : Option Owned → Option ℕ
block_of none = none
block_of (some o) = some o.block

-- What the entries `l` that the kernel may work on ask of the owned data and the counter.
pub record Covers (owned : Dict Owned) (counter : ℕ) (l : List Sqe) : Type 0 where
  -- the allocation that an entry points into is owned under the entry's user data
  pub owns :
      (e : Sqe) (b : ℕ)
      → In e l
      → points_to e.op ≡ some (on_heap b)
      → block_of (lookup e.user_data owned) ≡ some b
  -- user data below the reserved values names one entry, and those to come name none
  pub once : (u : ℕ) → u < reserved → submissions_with u l ≤ 1
  pub fresh : (u : ℕ) → counter ≤ u → u < reserved → submissions_with u l ≡ 0
  pub pointing :
      (e : Sqe) (b : ℕ) → In e l → points_to e.op ≡ some (on_heap b) → e.user_data < reserved
  -- no entry but a timeout points into a stack frame
  pub frames :
      (e : Sqe) (t : Timespec)
      → In e l
      → points_to e.op ≡ some (in_frame t)
      → e.user_data ≡ timeout_user_data

pub Covers-Fades :
    {timed : Bool} {owned : Dict Owned} {counter : ℕ} {q l : List Sqe}
    → Fades timed q l
    → Covers owned counter l
    → Covers owned counter q
Covers-Fades s c = record {
  owns = λ e b m h. c.owns e b (s.keeps e b m h) h;
  once = λ u h. omega (arith, s.counts u (below_timeout u h), c.once u h);
  fresh = λ u h k. omega (arith, s.counts u (below_timeout u k), c.fresh u h k);
  pointing = λ e b m h. c.pointing e b (s.keeps e b m h) h;
  frames = λ e t m h. elim (s.frames e t m h) [
    | inl there_before ↦ c.frames e t there_before h
    | inr (_, carries) ↦ carries
  ];
}

pub Covers-shrink :
    {owned : Dict Owned} {counter : ℕ} {q l : List Sqe}
    → Shrinks q l
    → Covers owned counter l
    → Covers owned counter q
Covers-shrink s = Covers-Fades {timed = false} (Shrinks-Fades s)

-- A counter that has moved on covers the same entries.
pub Covers-later :
    {owned : Dict Owned} {m n : ℕ} {l : List Sqe} → m ≤ n → Covers owned m l → Covers owned n l
Covers-later h c = record {
  owns = c.owns;
  once = c.once;
  fresh = λ u k r. c.fresh u (omega arith) r;
  pointing = c.pointing;
  frames = c.frames;
}

module _ (owned : Dict Owned) (counter : ℕ) (e : Sqe) (q : List Sqe)
    (covered : Covers owned counter q) (unused : submissions_with e.user_data q ≡ 0) where
  once-push : (u : ℕ) → u < reserved → submissions_with u (e ∷ q) ≤ 1
  once-push u h = ground (arith, covered.once u h)

  fresh-push :
      (u : ℕ) → e.user_data < counter → counter ≤ u → u < reserved → submissions_with u (e ∷ q) ≡ 0
  fresh-push u b h k = ground (arith, covered.fresh u h k)

  not_pushed : (d : Sqe) → In d q → d.user_data ≢ e.user_data
  not_pushed d m same = omega (arith, counted m, ap (λ u. submissions_with u q) same)

module _ (owned : Dict Owned) (counter : ℕ) (e : Sqe) (q : List Sqe)
    (covered : Covers owned counter q) (unused : submissions_with e.user_data q ≡ 0)
    (behind : e.user_data < counter) where
  module _ (o : Owned) (points : points_to e.op ≡ some (on_heap o.block))
      (low : e.user_data < reserved) where
    owns-own :
        (d : Sqe) (b : ℕ)
        → In d (e ∷ q)
        → points_to d.op ≡ some (on_heap b)
        → block_of (lookup d.user_data (insert e.user_data o owned)) ≡ some b
    owns-own d b here h =
        rw (lookup-insert_self e.user_data o owned) (ap target_block (sym points ∙ h))
    owns-own d b (there m) h =
        rw
          (lookup-insert_ne e.user_data d.user_data o owned
            (not_pushed owned counter e q covered unused d m))
          (covered.owns d b m h)

    pointing-own :
        (d : Sqe) (b : ℕ)
        → In d (e ∷ q)
        → points_to d.op ≡ some (on_heap b)
        → d.user_data < reserved
    pointing-own d b here h = low
    pointing-own d b (there m) h = covered.pointing d b m h

    frames-own :
        (d : Sqe) (t : Timespec)
        → In d (e ∷ q)
        → points_to d.op ≡ some (in_frame t)
        → d.user_data ≡ timeout_user_data
    frames-own d t here h = cc
    frames-own d t (there m) h = covered.frames d t m h

    -- a new entry, with its buffer
    pub Covers-own : Covers (insert e.user_data o owned) counter (e ∷ q)
    Covers-own = record {
      owns = owns-own;
      once = once-push owned counter e q covered unused;
      fresh = λ u. fresh-push owned counter e q covered unused u behind;
      pointing = pointing-own;
      frames = frames-own;
    }

  module _ (plain : points_to e.op ≡ none) where
    owns-plain :
        (d : Sqe) (b : ℕ)
        → In d (e ∷ q)
        → points_to d.op ≡ some (on_heap b)
        → block_of (lookup d.user_data owned) ≡ some b
    owns-plain d b here h = cc
    owns-plain d b (there m) h = covered.owns d b m h

    pointing-plain :
        (d : Sqe) (b : ℕ)
        → In d (e ∷ q)
        → points_to d.op ≡ some (on_heap b)
        → d.user_data < reserved
    pointing-plain d b here h = cc
    pointing-plain d b (there m) h = covered.pointing d b m h

    frames-plain :
        (d : Sqe) (t : Timespec)
        → In d (e ∷ q)
        → points_to d.op ≡ some (in_frame t)
        → d.user_data ≡ timeout_user_data
    frames-plain d t here h = cc
    frames-plain d t (there m) h = covered.frames d t m h

    -- a new entry that points to nothing
    pub Covers-plain : Covers owned counter (e ∷ q)
    Covers-plain = record {
      owns = owns-plain;
      once = once-push owned counter e q covered unused;
      fresh = λ u. fresh-push owned counter e q covered unused u behind;
      pointing = pointing-plain;
      frames = frames-plain;
    }

module _ {R : Type 0} ⦃p : Platform R⦄ (laws : PlatformLaws R) where
  abbrev pub pending_of : Option R → List Sqe
  pending_of none = []
  pending_of (some r) = laws.outstanding r

  -- Every allocation that an outstanding entry points into is owned, and will not be dropped before
  -- its completion is read; an entry that points into a stack frame instead is a timeout.
  abbrev pub IsSafe : TheIoRing R → Type 0
  IsSafe ring = Covers ring.owned_data ring.user_data_counter (pending_of ring.the_io_uring)
