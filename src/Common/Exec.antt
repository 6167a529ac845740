-- ===== src/Common/Exec.antt =====
-- A call that may raise, over a state that it changes. What was written before a raise stays
-- written, so the state comes back beside the error too. The errors are the Python exceptions that
-- the Rust module and the Python wrappers raise; their texts are data.
use Prim.Native.Nat.{ℕ}
use Prim.Native.String.{String}
use mathlib.Core.Path.{◌≡◌, refl}
use mathlib.Core.Logic.{◌⊎◌, inl, inr}
use mathlib.Core.Bool.{Bool, true, false}
use mathlib.Core.Option.{Option, none, some}
use century_ring.Common.Int.{ℤ}

-- The texts of `ValueError`.
pub data Message : Type 0 where
  ring_closed queue_full skip_success_owned timeout_not_submitted entries_zero bad_address : Message
  -- "can't write {size} bytes from a vec of {length}", "offset {o} out of range from vec of {length}"
  cant_write out_of_range : ℕ → ℕ → Message
  negative_offset : ℤ → Message
  -- "Handle {handle!r} is closed"
  handle_closed : ℕ → Message

pub data Error : Type 0 where
  value_error : Message → Error
  os_error : ℕ → Error
  not_implemented : String → Error
  -- a Python integer that does not fit the machine integer that the Rust function takes
  overflow_error : Error
  kernel_unsupported : ℕ → ℕ → Error
  -- a failed `assert!`
  panic : Error
  -- an exception of the code that runs inside a `with` block
  raised_by_caller : ℕ → Error
  -- No exception of the program: a dangling reference, and a loop of the model that ran out of
  -- fuel. Neither occurs from a well-formed state with enough fuel.
  no_such_object out_of_fuel : Error

pub data Result (A : Type 0) : Type 0 where
  ok : A → Result A
  err : Error → Result A

pub ok_injective : {A : Type 0} {a b : A} → ok a ≡ ok b → a ≡ b
ok_injective h = cc

abbrev pub Exec : Type 0 → Type 0 → Type 0
Exec S A = S → Result A × S

module _ {S A : Type 0} where
  unfoldable pub pure : A → Exec S A
  pure a s = (ok a, s)

  unfoldable pub raise : Error → Exec S A
  raise e s = (err e, s)

  unfoldable pub lift : Result A → Exec S A
  lift r s = (r, s)

  unfoldable pub or_raise : Error → Option A → Exec S A
  or_raise e none s = (err e, s)
  or_raise e (some a) s = (ok a, s)

module _ {S : Type 0} where
  unfoldable pub raise_if : Bool → Error → Exec S Unit
  raise_if true e s = (err e, s)
  raise_if false e s = (ok tt, s)

  unfoldable pub modify : (S → S) → Exec S Unit
  modify f s = (ok tt, f s)

module _ {S A B : Type 0} where
  abbrev pub continue : Result A → (A → Exec S B) → Exec S B
  continue (ok a) f s = f a s
  continue (err e) f s = (err e, s)

  infixl 5 ◌>>=◌ ◌>>◌
  -- opening this opens the actions above too
  unfoldable pub ◌>>=◌ : Exec S A → (A → Exec S B) → Exec S B
  unfolding pure raise lift or_raise raise_if modify
  ◌>>=◌ m f s = let (r, s') = m s in continue r f s'

  abbrev pub ◌>>◌ : Exec S A → Exec S B → Exec S B
  m >> k = m >>= λ _. k

pub Result-cases :
    {A : Type 0} (r : Result A) → ((a : A) × (r ≡ ok a)) ⊎ ((e : Error) × (r ≡ err e))
Result-cases (ok a) = inl (a, refl)
Result-cases (err e) = inr (e, refl)
