-- ===== src/Client/Outcome.antt =====
-- pysrc/century_ring/ring.py: what a method of `IoUring` that prepares an operation may do, on every
-- branch.
pub mod Arguments
pub mod Methods
use century_ring.Common.{
  ℕ, ◌+◌, ◌%◌, ◌≡◌, ◌⊎◌, refl, sym, ap, ◌∙◌, inl, inr, Bool, true, false, Option, none, some,
  get_elem?, set, Option-cases, Bool-cases, if◌then◌else◌,
}
use mathlib.Core.Path.{subst}
use century_ring.Common.Int.{ℤ, pos, u64_mod}
use century_ring.Common.Exec.{
  Error, Result, ok, err, Result-cases, Exec, pure, or_raise, raise_if, ◌>>=◌, ◌>>◌, continue,
  overflow_error, no_such_object, value_error, handle_closed,
}
use century_ring.Common.Keeps.{Keeps, Gives, Gives-bind_known}
use century_ring.Platform.{Crates, Platform}
use century_ring.Platform.Laws.{PlatformLaws}
use century_ring.Handle.{FdHandle, HandleStore, mark_closed, fd_of, close_called}
use century_ring.Ring.State.{TheIoRing, Process, get_next_user_data}
use century_ring.Prep.Outcome.{Asking, PrepOutcome, Prepares, raises}
use century_ring.Prep.Outcome.Steps.{or_raise-state, or_raise-ok}
use century_ring.Client.Unwrap.{unwrap_file-state, unwrap_file-FileIs}
use century_ring.Client.Requests.{FileIs, DirectoryIs}
use century_ring.Client.State.{
  AcceptableFile, int, object, World, on_process, on_store, unwrap_file, next_user_data,
}
use century_ring.Client.Files.{directory_fd, mark_if_object}

-- the handles are untouched, or one is marked as closed
abbrev pub MayMark : HandleStore → HandleStore → Type 0
MayMark before after = (after ≡ before) ⊎ ((ref : ℕ) × (after ≡ (mark_closed ref before).1))

abbrev marked_in : ℕ → HandleStore → FdHandle → HandleStore
marked_in ref store handle = record store {
  handles = set store.handles ref (record handle { close_called = true });
}

mark_closed-there :
    (ref : ℕ) (store : HandleStore) {handle : FdHandle}
    → get_elem? store.handles ref ≡ some handle
    → (mark_closed ref store).1 ≡ marked_in ref store handle
unfolding mark_closed ◌>>=◌
mark_closed-there ref store there = rw there refl

module _ {R : Type 0} where
  -- the ring object once the user data has been drawn
  abbrev pub drawn_ring : TheIoRing R → TheIoRing R
  drawn_ring ring = record ring { user_data_counter = (ring.user_data_counter + 1) % u64_mod }

  abbrev pub drawn : World R → World R
  drawn w = record w { process = record w.process { ring = drawn_ring w.process.ring } }

module _ {R : Type 0} ⦃p : Platform R⦄ (laws : PlatformLaws R) (asks : Asking) where
  -- It raises before it has drawn a user data, and changes nothing; or it draws one, and raises
  -- without an entry in the queue; or it returns the one that it drew, with its entry in the queue.
  pub data MethodOutcome (w : World R) : Result ℕ → World R → Type 0 where
    early : (e : Error) {after : World R} → after ≡ w → MethodOutcome w (err e) after
    failed :
        (e : Error) {after : World R}
        → PrepOutcome laws asks w.process.ring.user_data_counter
            (drawn_ring w.process.ring)
            (err e)
            after.process.ring
        → after.store ≡ w.store
        → MethodOutcome w (err e) after
    returned :
        {after : World R}
        → PrepOutcome laws asks w.process.ring.user_data_counter
            (drawn_ring w.process.ring)
            (ok tt)
            after.process.ring
        → MayMark w.store after.store
        → MethodOutcome w (ok w.process.ring.user_data_counter) after

  module _ (w : World R) where
    -- between the drawing of the user data and the call of the Rust function
    abbrev pub Drawn : World R → Type 0
    Drawn s = s ≡ drawn w

    abbrev pub Finishes : Exec (World R) ℕ → Type 0
    Finishes = Gives Drawn (MethodOutcome w)

    pub record HasOutcome (m : Exec (World R) ℕ) : Type 0 where
      pub outcome : MethodOutcome w (m w).0 (m w).1

    gives_up : (s : World R) (e : Error) → Drawn s → MethodOutcome w (err e) s
    gives_up s e same =
        failed e (raises laws asks _ _ s.process e (ap (λ s. s.process.ring) same))
          (ap (λ s. s.store) same)

    state-Keeps :
        {A : Type 0} (w' : World R) (m : Exec (World R) A)
        → ((s : World R) → (m s).1 ≡ s)
        → Keeps (λ s. s ≡ w') (λ s. s ≡ w') m
    state-Keeps w' m h = record { at = λ s same. h s ∙ same }

    pub convert :
        {A : Type 0} (o : Option A) {rest : A → Exec (World R) ℕ}
        → ((a : A) → o ≡ some a → Finishes (rest a))
        → Finishes (or_raise overflow_error o >>= rest)
    convert o =
        Gives-bind_known
          (state-Keeps (drawn w) (or_raise overflow_error o) (or_raise-state overflow_error o))
          (λ s a _. or_raise-ok overflow_error o s a) gives_up

    pub unwrap :
        (fd : AcceptableFile) {rest : ℤ → Exec (World R) ℕ}
        → ((file : ℤ) → FileIs fd w.store file → Finishes (rest file))
        → Finishes (unwrap_file fd >>= rest)
    unwrap fd =
        Gives-bind_known (state-Keeps (drawn w) (unwrap_file fd) (unwrap_file-state fd))
          (λ s file same given.
            subst (λ t. FileIs fd t file) (ap (λ s. s.store) same)
              (unwrap_file-FileIs fd s file given))
          gives_up

    pub draw :
        (rest : ℕ → Exec (World R) ℕ)
        → Finishes (rest w.process.ring.user_data_counter)
        → HasOutcome (next_user_data >>= rest)
    unfolding ◌>>=◌ get_next_user_data
    draw rest h = record { outcome = h.gives (drawn w) refl }

    -- what comes before the drawing
    pub guard :
        (b : Bool) (e : Error) (rest : Unit {0} → Exec (World R) ℕ)
        → HasOutcome (rest tt)
        → HasOutcome (raise_if b e >>= rest)
    unfolding ◌>>=◌
    guard true e rest h = record { outcome = early e refl }
    guard false e rest h = record { outcome = h.outcome }

    pub find_directory :
        (relative_to : Option AcceptableFile) (rest : ℤ → Exec (World R) ℕ)
        → ((fd : ℤ) → DirectoryIs relative_to w.store fd → HasOutcome (rest fd))
        → HasOutcome (directory_fd relative_to >>= rest)
    unfolding directory_fd fd_of ◌>>=◌
    find_directory none rest h = record { outcome = (h _ refl).outcome }
    find_directory (some (int fd)) rest h = record { outcome = (h fd refl).outcome }
    find_directory (some (object ref)) rest h = record {
      outcome = elim (Option-cases (get_elem? w.store.handles ref)) [
        | inl dangling ↦ rw dangling (early no_such_object refl)
        | inr (x, there) ↦ rw there (h x.fd (x, there, refl)).outcome
      ];
    }

    abbrev u : ℕ
    u = w.process.ring.user_data_counter

    abbrev PreparesHere : Exec (Process R) Unit → Type 0
    PreparesHere = Prepares laws asks u (drawn_ring w.process.ring)

    return_drawn :
        (s : World R) (x : Result Unit × Process R)
        → s.store ≡ w.store
        → PrepOutcome laws asks u (drawn_ring w.process.ring) x.0 x.1.ring
        → let out = continue x.0 (λ _. pure u) (record s { process = x.1 }) in
          MethodOutcome w out.0 out.1
    unfolding ◌>>=◌
    return_drawn s (ok _, t) same h = returned h (inl same)
    return_drawn s (err e, t) same h = failed e h same

    -- the Rust function, then the return
    pub prepare : (m : Exec (Process R) Unit) → PreparesHere m → Finishes (on_process m >> pure u)
    unfolding ◌>>=◌
    prepare m h = record {
      gives = λ s same.
          return_drawn s (m s.process) (ap (λ s. s.store) same)
            (h.gives s.process (ap (λ s. s.process.ring) same));
    }

    -- a plain descriptor has nothing to mark
    pub prepare_plain :
        (fd : ℤ) (m : Exec (Process R) Unit)
        → PreparesHere m
        → Finishes (on_process m >> (mark_if_object (int fd) >> pure u))
    unfolding ◌>>=◌
    prepare_plain fd m h = record { gives = (prepare m h).gives }

    mark_drawn :
        (ref : ℕ) (s : World R) (x : Result Unit × Process R) {handle : FdHandle}
        → get_elem? w.store.handles ref ≡ some handle
        → s.store ≡ w.store
        → PrepOutcome laws asks u (drawn_ring w.process.ring) x.0 x.1.ring
        → let out =
            continue x.0
              (λ _. mark_if_object (object ref) >> pure u)
              (record s { process = x.1 }) in
          MethodOutcome w out.0 out.1
    unfolding mark_closed ◌>>=◌
    mark_drawn ref s (err e, t) there same h = failed e h same
    mark_drawn ref s (ok _, t) {handle} there same h =
        let found : get_elem? s.store.handles ref ≡ some handle =
          ap (λ t. get_elem? t.handles ref) same ∙ there in
        rw found (
          returned h (
            inr (
              ref,
              ap (λ t. marked_in ref t handle) same ∙ sym (mark_closed-there ref w.store there),
            )))

    pub prepare_and_mark :
        (ref : ℕ) (m : Exec (Process R) Unit) {handle : FdHandle}
        → get_elem? w.store.handles ref ≡ some handle
        → PreparesHere m
        → Finishes (on_process m >> (mark_if_object (object ref) >> pure u))
    unfolding ◌>>=◌
    prepare_and_mark ref m there h = record {
      gives = λ s same.
          mark_drawn ref s (m s.process) there (ap (λ s. s.store) same)
            (h.gives s.process (ap (λ s. s.process.ring) same));
    }

    -- an fd that names no object raises once the user data is drawn
    pub dangling :
        (ref : ℕ) (rest : ℤ → Exec (World R) ℕ)
        → get_elem? w.store.handles ref ≡ none
        → Finishes (unwrap_file (object ref) >>= rest)
    unfolding unwrap_file close_called fd_of ◌>>=◌
    dangling ref rest missing = record {
      gives = λ s same.
          let lost : get_elem? s.store.handles ref ≡ none =
            ap (λ t. get_elem? t.store.handles ref) same ∙ missing in
          rw lost (gives_up s no_such_object same);
    }
