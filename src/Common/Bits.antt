-- ===== src/Common/Bits.antt =====
-- The laws of bitwise "or" on numbers of any width: it is associative, commutative and idempotent.
use Prim.Native.Nat.{
  ℕ, zero, suc, ◌+◌, ◌*◌, ◌/◌, ◌%◌, ◌≤◌, ◌<◌, ◌^◌, max, bit_or, digits, bit_or-bitwise,
}
use mathlib.Core.Path.{◌≡◌, refl, ap, ◌∙◌}
use native.Mathlib.Nat.{pow-suc}
use native.Mathlib.Omega.{arith}

abbrev or_digits : ℕ → ℕ → ℕ → ℕ
or_digits n a b = digits (λ b. b) max n a b

or_digits_fuel : (n m a b : ℕ) → a ≤ n → a ≤ m → or_digits n a b ≡ or_digits m a b
or_digits_fuel zero zero a b p q = refl
or_digits_fuel zero (suc m) zero b p q = refl
or_digits_fuel zero (suc m) (suc a) b p q = absurd (omega arith)
or_digits_fuel (suc n) zero zero b p q = refl
or_digits_fuel (suc n) zero (suc a) b p q = absurd (omega arith)
or_digits_fuel (suc n) (suc m) zero b p q = refl
or_digits_fuel (suc n) (suc m) (suc a) b p q =
    omega (arith, or_digits_fuel n m (suc a / 2) (b / 2) (omega arith) (omega arith))

pub zero-bit_or : (b : ℕ) → bit_or 0 b ≡ b
zero-bit_or b = bit_or-bitwise 0 b

-- The lowest digits are joined, and the rest likewise.
pub bit_or_step : (a b : ℕ) → bit_or a b ≡ bit_or (a / 2) (b / 2) * 2 + max (a % 2) (b % 2)
bit_or_step zero b = omega (arith, zero-bit_or b, zero-bit_or (b / 2))
bit_or_step (suc a) b = omega (
  arith,
  bit_or-bitwise (suc a) b,
  bit_or-bitwise (suc a / 2) (b / 2),
  or_digits_fuel a (suc a / 2) (suc a / 2) (b / 2) (omega arith) (omega arith),
)

bit_or_idem_fuel : (n a : ℕ) → a ≤ n → bit_or a a ≡ a
bit_or_idem_fuel n zero h = refl
bit_or_idem_fuel zero (suc a) h = absurd (omega arith)
bit_or_idem_fuel (suc n) (suc a) h =
    omega (arith, bit_or_step (suc a) (suc a), bit_or_idem_fuel n (suc a / 2) (omega arith))

pub bit_or_idem : (a : ℕ) → bit_or a a ≡ a
bit_or_idem a = bit_or_idem_fuel a a (omega arith)

bit_or_comm_fuel : (n a b : ℕ) → a + b ≤ n → bit_or a b ≡ bit_or b a
bit_or_comm_fuel n zero zero h = refl
bit_or_comm_fuel zero (suc a) b h = absurd (omega arith)
bit_or_comm_fuel zero zero (suc b) h = absurd (omega arith)
bit_or_comm_fuel (suc n) a b h =
    omega
      (arith, bit_or_step a b, bit_or_step b a, bit_or_comm_fuel n (a / 2) (b / 2) (omega arith))

pub bit_or_comm : (a b : ℕ) → bit_or a b ≡ bit_or b a
bit_or_comm a b = bit_or_comm_fuel (a + b) a b (omega arith)

bit_or_parts :
    (a b : ℕ) → (bit_or a b / 2 ≡ bit_or (a / 2) (b / 2)) × (bit_or a b % 2 ≡ max (a % 2) (b % 2))
bit_or_parts a b = omega (arith, bit_or_step a b)

bit_or_assoc_fuel : (n a b c : ℕ) → a + b + c ≤ n → bit_or (bit_or a b) c ≡ bit_or a (bit_or b c)
bit_or_assoc_fuel n zero b c h =
    omega (arith, zero-bit_or b, zero-bit_or (bit_or b c), ap (λ t. bit_or t c) (zero-bit_or b))
bit_or_assoc_fuel zero (suc a) b c h = absurd (omega arith)
bit_or_assoc_fuel (suc n) (suc a) b c h =
    let ih = bit_or_assoc_fuel n (suc a / 2) (b / 2) (c / 2) (omega arith) in
    let l = ap (λ t. bit_or t (c / 2)) ((bit_or_parts (suc a) b).0) in
    let r = ap (λ t. bit_or (suc a / 2) t) ((bit_or_parts b c).0) in
    omega (
      arith,
      bit_or_step (bit_or (suc a) b) c,
      bit_or_step (suc a) (bit_or b c),
      bit_or_parts (suc a) b,
      bit_or_parts b c,
      ih,
      l,
      r,
    )

pub bit_or_assoc : (a b c : ℕ) → bit_or (bit_or a b) c ≡ bit_or a (bit_or b c)
bit_or_assoc a b c = bit_or_assoc_fuel (a + b + c) a b c (omega arith)

-- the binary digit of `x` at place `k`
abbrev pub digit : ℕ → ℕ → ℕ
digit zero x = x % 2
digit (suc k) x = digit k (x / 2)

-- "or" joins the digits, place by place
pub digit-bit_or : (k a b : ℕ) → digit k (bit_or a b) ≡ max (digit k a) (digit k b)
digit-bit_or zero a b = (bit_or_parts a b).1
digit-bit_or (suc k) a b =
    ap (λ x. digit k x) ((bit_or_parts a b).0) ∙ digit-bit_or k (a / 2) (b / 2)

-- what fits `k` digits does so after "or"
pub bit_or-lt : (k a b : ℕ) → a < 2 ^ k → b < 2 ^ k → bit_or a b < 2 ^ k
bit_or-lt zero a b h g = let e : a ≡ 0 = omega arith in rw e (omega (arith, zero-bit_or b))
bit_or-lt (suc k) a b h g =
    let half_a : a / 2 < 2 ^ k = omega (arith, pow-suc 2 k) in
    let half_b : b / 2 < 2 ^ k = omega (arith, pow-suc 2 k) in
    omega (arith, pow-suc 2 k, bit_or_step a b, bit_or-lt k (a / 2) (b / 2) half_a half_b)
