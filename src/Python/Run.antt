-- ===== src/Python/Run.antt =====
-- Methods that change an object and may raise: what was written before a raise stays written, so
-- the state comes back beside the error too.
use mathlib.Core.Path.{subst}
use kuksa_val_feeders.Prelude.{ap, refl, sym, ◌≡◌}
use kuksa_val_feeders.Python.Errors.{Error, Result, ok, err}

abbrev pub Run : Type 0 → Type 0 → Type 0
Run S A = S → Result A × S

module _ {S : Type 0} where
  unfoldable pub pure : {A : Type 0} → A → Run S A
  pure a s = (ok a, s)

  unfoldable pub raise : {A : Type 0} → Error → Run S A
  raise e s = (err e, s)

  unfoldable pub lift : {A : Type 0} → Result A → Run S A
  lift r s = (r, s)

  unfoldable pub modify : (S → S) → Run S (Unit {0})
  modify f s = (ok tt, f s)

  infixl 5 ◌>>=◌ ◌>>◌
  -- opening this opens `pure`, `raise`, `lift` and `modify` too
  unfoldable pub ◌>>=◌ : {A B : Type 0} → Run S A → (A → Run S B) → Run S B
  unfolding pure raise lift modify
  ◌>>=◌ m f s = let (r, t) = m s in elim r [ ok a ↦ f a t | err e ↦ (err e, t) ]

  abbrev pub ◌>>◌ : {B : Type 0} → Run S (Unit {0}) → Run S B → Run S B
  m >> k = m >>= λ _. k

-- A run keeps `P`, whether it returns or raises.
abbrev pub Keeps : {S A : Type 0} → (S → Type 0) → Run S A → Type 0
Keeps {S} P m = (s : S) → P s → P (m s).1

pub Keeps-lift : {S A : Type 0} (P : S → Type 0) (r : Result A) → Keeps P (lift {S = S} r)
unfolding lift
Keeps-lift P r s h = h

pub Keeps-pure : {S A : Type 0} (P : S → Type 0) (a : A) → Keeps P (pure {S = S} a)
unfolding pure
Keeps-pure P a s h = h

pub Keeps-raise :
    {S : Type 0} (A : Type 0) (P : S → Type 0) (e : Error) → Keeps P (raise {S = S} {A = A} e)
unfolding raise
Keeps-raise A P e s h = h

module _ {S A B : Type 0} {P : S → Type 0} where
  Keeps-after :
      (r : Result A) (f : A → Run S B) → ((a : A) → Keeps P (f a)) → Keeps P (lift r >>= f)
  unfolding ◌>>=◌
  Keeps-after (ok a) f kf s h = kf a s h
  Keeps-after (err e) f kf s h = h

  pub Keeps-bind :
      (m : Run S A) (f : A → Run S B) → Keeps P m → ((a : A) → Keeps P (f a)) → Keeps P (m >>= f)
  unfolding ◌>>=◌
  Keeps-bind m f km kf s h = Keeps-after (m s).0 f kf (m s).1 (km s h)

-- A run goes on where its first part ended, or ends with the error of that.
module _ {S A B : Type 0} (m : Run S A) (f : A → Run S B) (s : S) {t : S} where
  pub bind_ok : {a : A} → m s ≡ (ok a, t) → (m >>= f) s ≡ f a t
  unfolding ◌>>=◌
  bind_ok {a} h =
      ap
        (λ (r : Result A × S). elim r.0 as (λ _. Result B × S) [
          | ok x ↦ f x r.1
          | err e ↦ (err e, r.1)
        ])
        h

  pub bind_err : {e : Error} → m s ≡ (err e, t) → (m >>= f) s ≡ (err e, t)
  unfolding ◌>>=◌
  bind_err {e} h =
      ap
        (λ (r : Result A × S). elim r.0 as (λ _. Result B × S) [
          | ok x ↦ f x r.1
          | err e' ↦ (err e', r.1)
        ])
        h

-- A run that returns is that of its second part, where its first part ended.
module _ {S A B : Type 0} where
  lift_returned :
      (r : Result A) (f : A → Run S B) (t : S) {b : B}
      → ((lift r >>= f) t).0 ≡ ok b
      → (a : A) × (r ≡ ok a) × ((lift r >>= f) t ≡ f a t)
  unfolding ◌>>=◌
  lift_returned (ok a) f t h = (a, refl, refl)
  lift_returned (err e) f t h = cc

  pub bind_returned :
      (m : Run S A) (f : A → Run S B) (s : S) {b : B}
      → ((m >>= f) s).0 ≡ ok b
      → (a : A) × ((m s).0 ≡ ok a) × ((m >>= f) s ≡ f a (m s).1)
  unfolding ◌>>=◌
  bind_returned m f s h = lift_returned (m s).0 f (m s).1 h

  -- What holds after each such second part, holds after the run.
  pub bind_after :
      (P : S → Type 0) (m : Run S A) (f : A → Run S B) (s : S) {b : B}
      → ((m >>= f) s).0 ≡ ok b
      → ((a : A) → (m s).0 ≡ ok a → (f a (m s).1).0 ≡ ok b → P (f a (m s).1).1)
      → P ((m >>= f) s).1
  bind_after P m f s {b} h then_holds =
      let (a, first, same) = bind_returned m f s h in
      subst (λ r. P r.1) (sym same) (then_holds a first (subst (λ r. r.0 ≡ ok b) same h))
