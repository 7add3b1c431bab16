-- ===== src/Prelude/Keeps.antt =====
-- What a computation leaves as it is, whether it returns, fails or panics: a rule for each way to
-- build one.
use mathlib.Core.Path.{◌≡◌, refl}
use mathlib.Core.Bool.{Bool, true, false}
use group_sync_operator.Prelude.Results.{
  Exec, Result, ok, err, panic, Error, pure, raise, lift, continue, settle, handle, ◌>>=◌,
}
use group_sync_operator.Prelude.Tests.{if◌then◌else◌}

pub record Keeps {ℓ} {S : Type 0} {A : Type ℓ} (P : S → Type 0) (m : Exec S A) : Type 0 where
  pub at : (s : S) → P s → P (m s).1

module _ {ℓ} {S : Type 0} {A : Type ℓ} {P : S → Type 0} where
  pub Keeps-pure : (a : A) → Keeps P (pure a)
  Keeps-pure a = record { at = λ s h. h }

  pub Keeps-raise : (e : Error) → Keeps P (raise {A = A} e)
  Keeps-raise e = record { at = λ s h. h }

  pub Keeps-lift : (r : Result A) → Keeps P (lift r)
  Keeps-lift r = record { at = λ s h. h }

  pub Keeps-if : (b : Bool) (m n : Exec S A) → Keeps P m → Keeps P n → Keeps P (if b then m else n)
  Keeps-if true m n km kn = km
  Keeps-if false m n km kn = kn

module _ {ℓ κ} {S : Type 0} {A : Type ℓ} {B : Type κ} (P : S → Type 0) where
  continue-keeps :
      (r : Result A) (f : A → Exec S B) (s : S)
      → P s
      → ((a : A) → r ≡ ok a → P (f a s).1)
      → P (continue r f s).1
  continue-keeps (ok a) f s h k = k a refl
  continue-keeps (err e) f s h k = h
  continue-keeps panic f s h k = h

  -- What follows may use that the first part returned, and what it returned from its state.
  pub Keeps-bind_from :
      (m : Exec S A) (f : A → Exec S B) (s : S)
      → P (m s).1
      → ((a : A) → (m s).0 ≡ ok a → P (f a (m s).1).1)
      → P ((m >>= f) s).1
  Keeps-bind_from m f s h k = continue-keeps (m s).0 f (m s).1 h k

module _ {ℓ κ} {S : Type 0} {A : Type ℓ} {B : Type κ} {P : S → Type 0} where
  pub Keeps-bind :
      (m : Exec S A) (f : A → Exec S B) → Keeps P m → ((a : A) → Keeps P (f a)) → Keeps P (m >>= f)
  Keeps-bind m f km kf = record {
    at = λ s h. Keeps-bind_from P m f s (km.at s h) (λ a e. (kf a).at (m s).1 (km.at s h));
  }

module _ {ℓ κ} {S : Type 0} {A : Type ℓ} {B : Type κ} {P : S → Type 0} where
  settle-keeps :
      (r : Result A) (failed : Error → Exec S B) (next : A → Exec S B) (s : S)
      → P s
      → ((e : Error) → Keeps P (failed e))
      → ((a : A) → Keeps P (next a))
      → P (settle r failed next s).1
  settle-keeps (ok a) failed next s h kf kn = (kn a).at s h
  settle-keeps (err e) failed next s h kf kn = (kf e).at s h
  settle-keeps panic failed next s h kf kn = h

  pub Keeps-handle :
      (m : Exec S A) (failed : Error → Exec S B) (next : A → Exec S B)
      → Keeps P m
      → ((e : Error) → Keeps P (failed e))
      → ((a : A) → Keeps P (next a))
      → Keeps P (handle m failed next)
  Keeps-handle m failed next km kf kn = record {
    at = λ s h. settle-keeps (m s).0 failed next (m s).1 (km.at s h) kf kn;
  }

pub ruleset keeps_rules = (Keeps-pure, Keeps-raise, Keeps-lift, Keeps-if, Keeps-bind, Keeps-handle)
