-- ===== src/Platform/Laws.antt =====
-- What the code relies on in the crates and the kernel: io_uring(7) and the manual pages of
-- io_uring_enter(2), the documentation of the crates io_uring, bitflags and pyo3.
use century_ring.Common.{
  ℕ, suc, ◌+◌, ◌-◌, ◌^◌, ◌≤◌, ◌<◌, ◌≡◌, ◌≢◌, true, false, none, some, List, [], ◌∷◌, In, ◌==◌,
  if◌then◌else◌,
}
use century_ring.Common.Int.{ℤ, pos, negsuc}
use century_ring.Platform.{Sqe, Cqe, SqeFlag, done, BuildOptions, Crates, Platform}

-- How many of the entries carry this user data.
abbrev pub submissions_with : ℕ → List Sqe → ℕ
submissions_with u [] = 0
submissions_with u (s ∷ l) =
    if s.user_data == u then suc (submissions_with u l) else submissions_with u l

abbrev pub completions_with : ℕ → List Cqe → ℕ
completions_with u [] = 0
completions_with u (s ∷ l) =
    if s.user_data == u then suc (completions_with u l) else completions_with u l

pub record CrateLaws ⦃c : Crates⦄ : Type 0 where
  pub none_contains : (f : SqeFlag) → c.contains c.no_flags (c.flag f) ≡ false
  pub union_contains : (x : ℕ) (f : SqeFlag) → c.contains (c.union x (c.flag f)) (c.flag f) ≡ true
  pub union_keeps :
      (x : ℕ) (f g : SqeFlag)
      → f ≢ g
      → c.contains (c.union x (c.flag f)) (c.flag g) ≡ c.contains x (c.flag g)
  -- the bits of a set of known flags are a u8, and name it
  pub bits_small : (x : ℕ) → c.bits x < 2 ^ 8
  pub bits_known :
      (x : ℕ) (f : SqeFlag)
      → c.contains (c.from_bits_truncate (c.bits x)) (c.flag f) ≡ c.contains x (c.flag f)
  pub unsigned_fits : (w n : ℕ) → n < 2 ^ w → c.to_unsigned w (pos n) ≡ some n
  pub unsigned_large : (w n : ℕ) → 2 ^ w ≤ n → c.to_unsigned w (pos n) ≡ none
  pub unsigned_negative : (w n : ℕ) → c.to_unsigned w (negsuc n) ≡ none
  pub signed_pos : (w n : ℕ) → n < 2 ^ (w - 1) → c.to_signed w (pos n) ≡ some (pos n)
  pub signed_negsuc : (w n : ℕ) → n < 2 ^ (w - 1) → c.to_signed w (negsuc n) ≡ some (negsuc n)
  pub signed_large : (w n : ℕ) → 2 ^ (w - 1) ≤ n → c.to_signed w (pos n) ≡ none
  pub signed_small : (w n : ℕ) → 2 ^ (w - 1) ≤ n → c.to_signed w (negsuc n) ≡ none

-- `outstanding` are the entries that have been pushed and whose completion has not been read: the
-- kernel may use what they point to. `batches` bounds the reads of the completion queue that find
-- something, while nothing is submitted.
pub record PlatformLaws (R : Type 0) ⦃p : Platform R⦄ : Type 0 where
  pub outstanding : R → List Sqe
  pub capacity : R → ℕ
  pub batches : R → ℕ
  pub push_adds :
      (e : Sqe) (r : R) {r' : R} → p.push e r ≡ some r' → outstanding r' ≡ e ∷ outstanding r
  pub push_room : (e : Sqe) (r : R) → p.sq_len r < capacity r → p.push e r ≢ none
  -- submitting may complete operations, and starts none that was not pushed
  pub submit_keeps : (r : R) (s : Sqe) → In s (outstanding (p.submit r).1) → In s (outstanding r)
  pub submit_counts :
      (r : R) (u : ℕ)
      → submissions_with u (outstanding (p.submit r).1) ≤ submissions_with u (outstanding r)
  pub submit_capacity : (r : R) → capacity (p.submit r).1 ≡ capacity r
  pub wait_keeps :
      (want : ℕ) (r : R) (s : Sqe)
      → In s (outstanding (p.submit_and_wait want r).1)
      → In s (outstanding r)
  pub wait_counts :
      (want : ℕ) (r : R) (u : ℕ)
      → submissions_with u (outstanding (p.submit_and_wait want r).1)
        ≤ submissions_with u (outstanding r)
  -- an entry is completed at most once, by a completion that carries its user data
  pub completion_keeps :
      (r : R) (s : Sqe) → In s (outstanding (p.completion r).1) → In s (outstanding r)
  pub completion_counts :
      (r : R) (u : ℕ)
      → completions_with u (p.completion r).0 + submissions_with u (outstanding (p.completion r).1)
        ≤ submissions_with u (outstanding r)
  pub completion_ends : (r : R) → (p.completion r).0 ≢ [] → batches (p.completion r).1 < batches r
  pub eventfd_keeps : (fd : ℤ) (r : R) → outstanding (p.register_eventfd fd r).1 ≡ outstanding r
  pub build_empty : (o : BuildOptions) {r : R} → p.build o ≡ done r → outstanding r ≡ []
