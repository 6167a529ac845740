-- ===== src/Prep/Outcome/Steps.antt =====
-- src/files.rs, src/network.rs and src/shared.rs: one rule for each step that the preparing functions
-- take before they push.
use century_ring.Common.{
  true, false, ℕ, ◌≡◌, refl, ap, none, some, inl, inr, Bool, String, Option, Bool-cases,
}
use century_ring.Common.Exec.{Error, Result, ok, Exec, lift, or_raise, raise_if, ◌>>=◌}
use century_ring.Platform.{Opcode, Crates, Platform}
use century_ring.Platform.Laws.{PlatformLaws}
use century_ring.Ring.State.{TheIoRing, Process, allocate, require_support}
use century_ring.Prep.Outcome.{Asking, Prepares, before, before_known}

require_support-ring :
    {R : Type 0} (code : Opcode) (name : String) (s : Process R)
    → (require_support code name s).1.ring ≡ s.ring
unfolding require_support ◌>>=◌
require_support-ring code name s = elim (Bool-cases (s.probe code)) [
  | inl there ↦ rw there refl
  | inr missing ↦ rw missing refl
]

allocate-ring : {R : Type 0} (s : Process R) → (allocate s).1.ring ≡ s.ring
unfolding allocate
allocate-ring s = refl

raise_if-state : {S : Type 0} (b : Bool) (e : Error) (s : S) → (raise_if b e s).1 ≡ s
unfolding raise_if
raise_if-state true e s = refl
raise_if-state false e s = refl

pub or_raise-state : {S A : Type 0} (e : Error) (o : Option A) (s : S) → (or_raise e o s).1 ≡ s
unfolding or_raise
or_raise-state e none s = refl
or_raise-state e (some a) s = refl

pub or_raise-ok :
    {S A : Type 0} (e : Error) (o : Option A) (s : S) (a : A)
    → (or_raise e o s).0 ≡ ok a
    → o ≡ some a
unfolding or_raise
or_raise-ok e none s a h = cc
or_raise-ok e (some b) s a h = cc

lift-state : {S A : Type 0} (r : Result A) (s : S) → (lift r s).1 ≡ s
unfolding lift
lift-state r s = refl

module _ {R : Type 0} ⦃c : Crates⦄ ⦃p : Platform R⦄ (laws : PlatformLaws R) (asks : Asking) (u : ℕ)
    (ring : TheIoRing R) where
  pub supported :
      (code : Opcode) (name : String) {rest : Unit {0} → Exec (Process R) Unit}
      → ((x : Unit {0}) → Prepares laws asks u ring (rest x))
      → Prepares laws asks u ring (require_support code name >>= rest)
  supported code name =
      before laws asks u ring (require_support code name) (require_support-ring code name)

  pub allocated :
      {rest : ℕ → Exec (Process R) Unit}
      → ((block : ℕ) → Prepares laws asks u ring (rest block))
      → Prepares laws asks u ring (allocate >>= rest)
  allocated = before laws asks u ring allocate allocate-ring

  pub unless :
      (b : Bool) (e : Error) {rest : Unit {0} → Exec (Process R) Unit}
      → ((x : Unit {0}) → Prepares laws asks u ring (rest x))
      → Prepares laws asks u ring (raise_if b e >>= rest)
  unless b e = before laws asks u ring (raise_if b e) (λ s. ap (λ s. s.ring) (raise_if-state b e s))

  pub checked :
      {A : Type 0} (r : Result A) {rest : A → Exec (Process R) Unit}
      → ((a : A) → r ≡ ok a → Prepares laws asks u ring (rest a))
      → Prepares laws asks u ring (lift r >>= rest)
  unfolding lift
  checked r =
      before_known laws asks u ring (lift r) (λ s. ap (λ s. s.ring) (lift-state r s)) (λ s a e. e)

  pub parsed :
      {A : Type 0} (e : Error) (o : Option A) {rest : A → Exec (Process R) Unit}
      → ((a : A) → o ≡ some a → Prepares laws asks u ring (rest a))
      → Prepares laws asks u ring (or_raise e o >>= rest)
  parsed e o =
      before_known laws asks u ring (or_raise e o) (λ s. ap (λ s. s.ring) (or_raise-state e o s))
        (or_raise-ok e o)
