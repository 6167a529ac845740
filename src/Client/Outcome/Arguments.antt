-- ===== src/Client/Outcome/Arguments.antt =====
-- pysrc/century_ring/ring.py: what becomes of a method's arguments on their way into a Rust function.
use century_ring.Common.{ℕ, ◌-◌, ◌^◌, ◌<◌, ◌≤◌, ◌≡◌, ◌⊎◌, inl, inr, sym, none, some, arith}
use mathlib.Core.Path.{subst}
use century_ring.Common.Int.{ℤ, pos, negsuc}
use century_ring.Common.Exec.{Exec, ◌>>=◌}
use century_ring.Platform.{Crates, Platform}
use century_ring.Platform.Laws.{CrateLaws, PlatformLaws}
use century_ring.Client.State.{World, unsigned, signed}
use century_ring.Client.Requests.{FitsSigned, IsUnsigned}
use century_ring.Prep.Outcome.{Asking}
use century_ring.Client.Outcome.{Finishes, convert}

some_injective : {A : Type 0} {a b : A} → some a ≡ some b → a ≡ b
some_injective h = cc

below_or_not : (m n : ℕ) → (m < n) ⊎ (n ≤ m)
below_or_not m n = ground arith

module _ ⦃c : Crates⦄ (claws : CrateLaws) where
  -- pyo3 converts nothing but what fits, and to itself
  to_signed-FitsSigned : (w : ℕ) (z x : ℤ) → c.to_signed w z ≡ some x → (x ≡ z) × FitsSigned w z
  to_signed-FitsSigned w (pos n) x h = elim (below_or_not n (2 ^ (w - 1))) [
    | inl fits ↦ (sym (some_injective (rw (claws.signed_pos w n fits) at h)), fits)
    | inr large ↦ let impossible : none ≡ some x = rw (claws.signed_large w n large) at h in cc
  ]
  to_signed-FitsSigned w (negsuc n) x h = elim (below_or_not n (2 ^ (w - 1))) [
    | inl fits ↦ (sym (some_injective (rw (claws.signed_negsuc w n fits) at h)), fits)
    | inr large ↦ let impossible : none ≡ some x = rw (claws.signed_small w n large) at h in cc
  ]

  to_unsigned-IsUnsigned : (w : ℕ) (z : ℤ) (x : ℕ) → c.to_unsigned w z ≡ some x → IsUnsigned w z x
  to_unsigned-IsUnsigned w (pos n) x h = elim (below_or_not n (2 ^ w)) [
    | inl fits ↦
        let same : n ≡ x = some_injective (rw (claws.unsigned_fits w n fits) at h) in
        subst (IsUnsigned w (pos n)) same (λ _. pos n, fits)
    | inr large ↦ let impossible : none ≡ some x = rw (claws.unsigned_large w n large) at h in cc
  ]
  to_unsigned-IsUnsigned w (negsuc n) x h =
      let impossible : none ≡ some x = rw (claws.unsigned_negative w n) at h in cc

module _ {R : Type 0} ⦃c : Crates⦄ ⦃p : Platform R⦄ (claws : CrateLaws) (laws : PlatformLaws R)
    (asks : Asking) (w : World R) where
  pub signed_argument :
      (width : ℕ) (z : ℤ) (rest : ℤ → Exec (World R) ℕ)
      → (FitsSigned width z → Finishes laws asks w (rest z))
      → Finishes laws asks w (signed width z >>= rest)
  signed_argument width z rest h = convert laws asks w (c.to_signed width z) λ x given.
      let (same, fits) = to_signed-FitsSigned claws width z x given in
      subst (λ x. Finishes laws asks w (rest x)) (sym same) (h fits)

  pub unsigned_argument :
      (width : ℕ) (z : ℤ) {rest : ℕ → Exec (World R) ℕ}
      → ((n : ℕ) → IsUnsigned width z n → Finishes laws asks w (rest n))
      → Finishes laws asks w (unsigned width z >>= rest)
  unsigned_argument width z h =
      convert laws asks w (c.to_unsigned width z)
        λ n given. h n (to_unsigned-IsUnsigned claws width z n given)
