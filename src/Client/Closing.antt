-- ===== src/Client/Closing.antt =====
-- pysrc/century_ring/ring.py: when the ring of a `make_io_ring` block is closed, and what becomes of
-- a handle that `prep_close` took.
use century_ring.Common.{
  ℕ, ◌≡◌, ◌⊎◌, refl, ap, ◌∙◌, inl, inr, true, Option, none, some, get_elem?, get_elem?-set_self,
  lt-length_of_some, set, Option-cases, Bool-cases, arith,
}
use century_ring.Common.Int.{ℤ, pos}
use century_ring.Common.Exec.{
  Error, Result, ok, err, Exec, pure, or_raise, ◌>>=◌, value_error, handle_closed, overflow_error,
}
use century_ring.Common.Keeps.{Keeps, Gives, Gives-bind}
use century_ring.Platform.{Crates, Platform, Os}
use century_ring.Handle.{FdHandle, HandleStore, mark_closed, close_called, fd_of}
use century_ring.Handle
use century_ring.Ring.State.{TheIoRing, Process, get_next_user_data}
use century_ring.Ring.State
use century_ring.Prep.Shared.{ioring_prep_close}
use century_ring.Client.State.{
  AcceptableFile, int, object, World, on_process, on_store, unwrap_file, if_none,
}
use century_ring.Client.Files.{mark_if_object, prep_close}
use century_ring.Client.Session.{
  RingArgs, Scope, finished, new_scope, run_and_close, create_args, created, with_ring_object,
  make_io_ring,
}

-- the store with that handle closed
abbrev closed_in : ℕ → HandleStore → FdHandle → HandleStore
closed_in ref store x = record store {
  handles = set store.handles ref (record x { close_called = true });
}

created-store :
    (R : Type 0) ⦃c : Crates⦄ ⦃p : Platform R⦄ (a : RingArgs) (store : HandleStore)
    → (created {R = R} a store).1 ≡ store
unfolding create_args ◌>>=◌
created-store R a store = ground arith

module _ {R : Type 0} ⦃c : Crates⦄ ⦃p : Platform R⦄ where
  module _ {E A : Type 0} where
    with_ring_object-closes :
        (block : Exec (Scope R E) A) (outer : E) (x : Result (TheIoRing R) × HandleStore)
        (r : Result A) (s : Scope R E)
        → with_ring_object block outer x ≡ finished r s
        → (ring : TheIoRing R) × (x.0 ≡ ok ring)
          × (r ≡ (block (new_scope ring x.1 outer)).0)
          × (s.world.store ≡ (block (new_scope ring x.1 outer)).1.world.store)
          × (s.outer ≡ (block (new_scope ring x.1 outer)).1.outer)
          × (s.world.process.ring.the_io_uring ≡ none)
    unfolding run_and_close State.close ◌>>=◌
    with_ring_object-closes block outer (err e, store) r s h = cc
    with_ring_object-closes block outer (ok ring, store) r s h =
        (ring, refl, ground arith, ground arith, ground arith, ground arith)

    -- If `make_io_ring` ran its block, then the ring was created; the block ran on it once, with no
    -- call before it; the outcome is the block's, a result or an exception, and so are the handles
    -- and all else; and the ring is closed at the end, however the block ended.
    pub make_io_ring_closes :
        (a : RingArgs) (block : Exec (Scope R E) A) (store : HandleStore) (outer : E) (r : Result A)
        (s : Scope R E)
        → make_io_ring a block store outer ≡ finished r s
        → (ring : TheIoRing R) × ((created a store).0 ≡ ok ring)
          × (r ≡ (block (new_scope ring store outer)).0)
          × (s.world.store ≡ (block (new_scope ring store outer)).1.world.store)
          × (s.outer ≡ (block (new_scope ring store outer)).1.outer)
          × (s.world.process.ring.the_io_uring ≡ none)
    unfolding make_io_ring
    make_io_ring_closes a block store outer r s h =
        rw (created-store R a store) at
          (with_ring_object-closes block outer (created a store) r s h)

  -- what is known of the handles while `prep_close` runs
  abbrev SameStore : HandleStore → World R → Type 0
  SameStore store w = w.store ≡ store

  SameStore-Keeps :
      {A : Type 0} (store : HandleStore) (m : Exec (World R) A)
      → ((w : World R) → (m w).1.store ≡ w.store)
      → Keeps (SameStore store) (SameStore store) m
  SameStore-Keeps store m h = record { at = λ w same. h w ∙ same }

  -- The ring owns the fd from now on: the handle refuses to be used, and closing it does nothing.
  pub record GaveUp ⦃o : Os⦄ (ref : ℕ) (store : HandleStore) (after : World R) : Type 0 where
    pub refuses : unwrap_file (object ref) after ≡ (err (value_error (handle_closed ref)), after)
    pub closes_nothing : on_store (Handle.close ref) after ≡ (ok tt, after)
    pub no_call : after.store.close_calls ≡ store.close_calls

  marked-GaveUp :
      ⦃o : Os⦄ (ref : ℕ) (store : HandleStore) (after : World R) {x : FdHandle}
      → get_elem? store.handles ref ≡ some x
      → after.store ≡ closed_in ref store x
      → GaveUp ref store after
  unfolding unwrap_file close_called fd_of Handle.close ◌>>=◌
  marked-GaveUp ref store after {x} there marked =
      let set_self =
        get_elem?-set_self store.handles ref (record x { close_called = true })
          (lt-length_of_some store.handles ref there) in
      let there_after : get_elem? after.store.handles ref
          ≡ some (record x { close_called = true }) =
        ap (λ s. get_elem? s.handles ref) (marked) ∙ set_self in
      record {
        refuses = rw there_after refl;
        closes_nothing = rw there_after refl;
        no_call = ap (λ s. s.close_calls) (marked);
      }

  abbrev pub ClosesOrRaises : ⦃o : Os⦄ → ℕ → ℕ → HandleStore → Result ℕ → World R → Type 0
  ClosesOrRaises u ref store result after =
      ((result ≡ ok u) × GaveUp ref store after)
      ⊎ ((e : Error) × (result ≡ err e) × (after.store ≡ store))

  unwrap_file-store : (fd : AcceptableFile) (w : World R) → (unwrap_file fd w).1.store ≡ w.store
  unfolding unwrap_file close_called fd_of ◌>>=◌
  unwrap_file-store (int fd) w = refl
  unwrap_file-store (object ref) w = elim (Option-cases (get_elem? w.store.handles ref)) [
    | inl dangling ↦ rw dangling refl
    | inr (x, there) ↦ elim (Bool-cases x.close_called) [
      | inl closed ↦ rw there (rw closed refl)
      | inr usable ↦ rw there (rw usable (rw there refl))
    ]
  ]

  conversion-store :
      {A : Type 0} (o : Option A) (w : World R)
      → (or_raise {S = World R} overflow_error o w).1.store ≡ w.store
  unfolding or_raise
  conversion-store none w = refl
  conversion-store (some a) w = refl

  module _ ⦃o : Os⦄ (u ref : ℕ) (store : HandleStore) where
    raises : (s : World R) (e : Error) → SameStore store s → ClosesOrRaises u ref store (err e) s
    raises s e same = inr (e, refl, same)

    convert :
        {A : Type 0} (x : Option A) {rest : A → Exec (World R) ℕ}
        → ((a : A) → Gives (SameStore store) (ClosesOrRaises u ref store) (rest a))
        → Gives (SameStore store) (ClosesOrRaises u ref store) (or_raise overflow_error x >>= rest)
    convert x =
        Gives-bind (SameStore-Keeps store (or_raise overflow_error x) (conversion-store x)) raises

    -- the end of `prep_close`
    mark_and_return :
        {x : FdHandle}
        → get_elem? store.handles ref ≡ some x
        → Gives
            (SameStore store)
            (ClosesOrRaises u ref store)
            (mark_if_object (object ref) >>= λ _. pure u)
    unfolding mark_closed ◌>>=◌
    mark_and_return {x} there = record {
      gives = λ s same.
          let found : get_elem? s.store.handles ref ≡ some x =
            ap (λ t. get_elem? t.handles ref) same ∙ there in
          rw found (inl (refl, marked-GaveUp ref store _ there (ap (λ t. closed_in ref t x) same)));
    }

  -- Whatever the ring answers: `prep_close` on a handle either returns the next user data, and then
  -- the handle refuses to be used and `close` on it makes no system call; or it raises, and then
  -- the handles are as they were.
  pub prep_close_outcomes :
      ⦃o : Os⦄ (ref : ℕ) (sqe_flags : Option ℤ) (w : World R) (x : FdHandle)
      → get_elem? w.store.handles ref ≡ some x
      → let (result, after) = prep_close (object ref) sqe_flags w in
        ClosesOrRaises w.process.user_data_counter ref w.store result after
  unfolding prep_close get_next_user_data ◌>>=◌
  prep_close_outcomes ref sqe_flags w x there =
      let u = w.process.user_data_counter in
      (Gives-bind
          (SameStore-Keeps w.store (unwrap_file (object ref)) (unwrap_file-store (object ref)))
          (raises u ref w.store)
          (λ file. convert u ref w.store (c.to_signed 32 file) λ raw_fd.
            convert u ref w.store (c.to_unsigned 64 (pos u)) λ ud.
              convert u ref w.store (c.to_unsigned 8 (if_none (pos 0) sqe_flags)) λ sqe.
                Gives-bind
                  (SameStore-Keeps w.store (on_process (ioring_prep_close raw_fd ud sqe))
                    (λ s. refl))
                  (raises u ref w.store) (λ _. mark_and_return u ref w.store there))).gives
        _ refl
