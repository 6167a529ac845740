-- ===== src/Common/Keeps.antt =====
-- Pre- and postconditions of calls, one rule for each way to build a call.
use mathlib.Core.Path.{◌≡◌, refl}
use mathlib.Core.Option.{Option, none, some}
use century_ring.Common.Exec.{Error, Result, ok, err, Exec, pure, or_raise, continue, ◌>>=◌}

-- From a state with `P`, the call leaves one with `Q`, whether it returns or raises.
pub record Keeps {S A : Type 0} (P Q : S → Type 0) (m : Exec S A) : Type 0 where
  pub at : (s : S) → P s → Q (m s).1

module _ {S A : Type 0} {P Q : S → Type 0} (weaken : (s : S) → P s → Q s) where
  pub Keeps-pure : (a : A) → Keeps P Q (pure a)
  unfolding pure
  Keeps-pure a = record { at = weaken }

continue-at :
    {S A B : Type 0} (Q : S → Type 0) (r : Result A) (f : A → Exec S B) (s : S)
    → Q s
    → ((a : A) → r ≡ ok a → Q (f a s).1)
    → Q (continue r f s).1
continue-at Q (ok a) f s h k = k a (λ _. ok a)
continue-at Q (err e) f s h k = h

module _ {S A B : Type 0} {P Q : S → Type 0} where
  -- the first call may raise, and then the rest is not run
  pub Keeps-bind :
      {P' : S → Type 0} {m : Exec S A} {f : A → Exec S B}
      → Keeps P P' m
      → ((s : S) → P' s → Q s)
      → ((a : A) → Keeps P' Q (f a))
      → Keeps P Q (m >>= f)
  unfolding ◌>>=◌
  Keeps-bind {m} {f} first weaken rest = record {
    at = λ s h.
        let (r, s') = m s in
        continue-at Q r f s' (weaken s' (first.at s h)) (λ a _. (rest a).at s' (first.at s h));
  }

  -- a conversion leaves the state alone; what follows may use its result
  pub Keeps-or_raise :
      (weaken : (s : S) → P s → Q s) (e : Error) (o : Option A) (f : A → Exec S B)
      → ((a : A) → o ≡ some a → Keeps P Q (f a))
      → Keeps P Q (or_raise e o >>= f)
  unfolding ◌>>=◌
  Keeps-or_raise weaken e none f rest = record { at = weaken }
  Keeps-or_raise weaken e (some a) f rest = record { at = (rest a (λ _. some a)).at }

-- A postcondition that also looks at the result.
pub record Gives {S A : Type 0} (P : S → Type 0) (Q : Result A → S → Type 0) (m : Exec S A)
    : Type 0 where
  pub gives : (s : S) → P s → Q (m s).0 (m s).1

continue-gives :
    {S A B : Type 0} (P : S → Type 0) (Q : Result B → S → Type 0) (r : Result A) (f : A → Exec S B)
    (s : S)
    → P s
    → ((s : S) (e : Error) → P s → Q (err e) s)
    → ((a : A) → r ≡ ok a → Gives P Q (f a))
    → Q (continue r f s).0 (continue r f s).1
continue-gives P Q (ok a) f s h failed rest = (rest a refl).gives s h
continue-gives P Q (err e) f s h failed rest = failed s e h

module _ {S A B : Type 0} {P P' : S → Type 0} {Q : Result B → S → Type 0} where
  pub Gives-bind :
      {m : Exec S A} {f : A → Exec S B}
      → Keeps P P' m
      → ((s : S) (e : Error) → P' s → Q (err e) s)
      → ((a : A) → Gives P' Q (f a))
      → Gives P Q (m >>= f)
  unfolding ◌>>=◌
  Gives-bind {m} {f} first failed rest = record {
    gives = λ s h. continue-gives P' Q (m s).0 f (m s).1 (first.at s h) failed (λ a _. rest a);
  }

  -- what the first call returns tells something
  pub Gives-bind_known :
      {m : Exec S A} {f : A → Exec S B} {Known : A → Type 0}
      → Keeps P P' m
      → ((s : S) (a : A) → P s → (m s).0 ≡ ok a → Known a)
      → ((s : S) (e : Error) → P' s → Q (err e) s)
      → ((a : A) → Known a → Gives P' Q (f a))
      → Gives P Q (m >>= f)
  unfolding ◌>>=◌
  Gives-bind_known {m} {f} first known failed rest = record {
    gives = λ s h.
        continue-gives P' Q (m s).0 f (m s).1 (first.at s h) failed (λ a e. rest a (known s a h e));
  }
