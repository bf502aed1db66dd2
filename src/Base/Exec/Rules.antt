-- ===== src/Base/Exec/Rules.antt =====
-- Proof rules for code that changes a state and may raise: what it keeps, and the pure result
-- that it implements.
use mathlib.Core.Path.{◌≡◌, refl}
use fastgeoapi.Base.Errors
use fastgeoapi.Base.Errors.{Exception, Result, ok, err}
use fastgeoapi.Base.Exec.{Exec, pure, raise, lift, ◌>>=◌, ◌>>◌}

-- From every state with `P` the result is `r`, and the state has `P` afterwards.
pub record Implements {ℓ} {S A : Type ℓ} (P : S → Type ℓ) (m : Exec S A) (r : Result A)
    : Type ℓ where
  pub returns : (s : S) → P s → (m s).0 ≡ r
  pub keeps : (s : S) → P s → P (m s).1

module _ {ℓ} {S A : Type ℓ} {P : S → Type ℓ} where
  pub Implements-pure : (a : A) → Implements P (pure a) (ok a)
  unfolding pure
  Implements-pure a = record { returns = λ s h. refl; keeps = λ s h. h }

  pub Implements-raise : (e : Exception) → Implements P (raise {A = A} e) (err e)
  unfolding raise
  Implements-raise e = record { returns = λ s h. refl; keeps = λ s h. h }

  pub Implements-lift : (r : Result A) → Implements P (lift r) r
  unfolding lift
  Implements-lift r = record { returns = λ s h. refl; keeps = λ s h. h }

module _ {ℓ} {S A B : Type ℓ} {P : S → Type ℓ} where
  Implements-lift-bind :
      (r : Result A) (f : A → Exec S B) (g : A → Result B)
      → ((a : A) → r ≡ ok a → Implements P (f a) (g a))
      → Implements P (lift r >>= f) (Errors.◌>>=◌ r g)
  unfolding ◌>>=◌
  Implements-lift-bind (ok a) f g h = h a refl
  Implements-lift-bind (err e) f g h = Implements-raise e

  pub Implements-bind :
      (m : Exec S A) (r : Result A) (f : A → Exec S B) (g : A → Result B)
      → Implements P m r
      → ((a : A) → r ≡ ok a → Implements P (f a) (g a))
      → Implements P (m >>= f) (Errors.◌>>=◌ r g)
  unfolding ◌>>=◌
  Implements-bind m r f g hm hf = record {
    returns = λ s h.
        rw (hm.returns s h, ◌>>=◌) ((Implements-lift-bind r f g hf).returns (m s).1 (hm.keeps s h));
    keeps = λ s h.
        rw (hm.returns s h, ◌>>=◌) ((Implements-lift-bind r f g hf).keeps (m s).1 (hm.keeps s h));
  }

-- Where it returns, the state has `P` afterwards, and where it raises, `Q`.
abbrev pub Holds {ℓ} : {S A : Type ℓ} → (S → Type ℓ) → (S → Type ℓ) → Result A → S → Type ℓ
Holds P Q (ok a) s = P s
Holds P Q (err e) s = Q s

pub record Ensures {ℓ} {S A : Type ℓ} (P Q : S → Type ℓ) (m : Exec S A) : Type ℓ where
  pub ends : (s : S) → P s → Holds P Q (m s).0 (m s).1

module _ {ℓ} {S A : Type ℓ} {P Q : S → Type ℓ} where
  pub Ensures-pure : (a : A) → Ensures P Q (pure a)
  unfolding pure
  Ensures-pure a = record { ends = λ s h. h }

  pub Ensures-raise : (e : Exception) → ((s : S) → P s → Q s) → Ensures P Q (raise {A = A} e)
  unfolding raise
  Ensures-raise e weaken = record { ends = weaken }

  pub Ensures-lift : (r : Result A) → ((s : S) → P s → Q s) → Ensures P Q (lift r)
  unfolding lift
  Ensures-lift (ok a) weaken = record { ends = λ s h. h }
  Ensures-lift (err e) weaken = record { ends = weaken }

module _ {ℓ} {S A B : Type ℓ} {P Q : S → Type ℓ} where
  Holds-continue :
      (r : Result A) (s : S) (f : A → Exec S B)
      → Holds P Q r s
      → ((a : A) → Ensures P Q (f a))
      → Holds P Q ((lift r >>= f) s).0 ((lift r >>= f) s).1
  unfolding ◌>>=◌
  Holds-continue (ok a) s f h hf = (hf a).ends s h
  Holds-continue (err e) s f h hf = h

  pub Ensures-bind :
      (m : Exec S A) (f : A → Exec S B)
      → Ensures P Q m
      → ((a : A) → Ensures P Q (f a))
      → Ensures P Q (m >>= f)
  unfolding ◌>>=◌
  Ensures-bind m f hm hf = record {
    ends = λ s h. Holds-continue (m s).0 (m s).1 f (hm.ends s h) hf;
  }

  pub Ensures-then :
      (m : Exec S A) (k : Exec S B) → Ensures P Q m → Ensures P Q k → Ensures P Q (m >> k)
  unfolding ◌>>◌
  Ensures-then m k hm hk = Ensures-bind m (λ _. k) hm (λ _. hk)

bind-ok_of {ℓ} :
    {S A B : Type ℓ} (f : A → Exec S B) (r : Result A × S) (s' : S) (b : B)
    → ((pure {S = S} tt >>= λ _. λ _. r) >>= f) r.1 ≡ (ok b, s')
    → (a : A) × (r.0 ≡ ok a) × (f a r.1 ≡ (ok b, s'))
unfolding ◌>>=◌ pure
bind-ok_of f (ok a, t) s' b h = (a, refl, h)
bind-ok_of f (err e, t) s' b h = cc

-- What returned, returned in both parts.
pub bind-ok {ℓ} :
    {S A B : Type ℓ} (m : Exec S A) (f : A → Exec S B) (s s' : S) (b : B)
    → (m >>= f) s ≡ (ok b, s')
    → (a : A) × ((m s).0 ≡ ok a) × (f a (m s).1 ≡ (ok b, s'))
unfolding ◌>>=◌ pure
bind-ok m f s s' b h = bind-ok_of f (m s) s' b h
