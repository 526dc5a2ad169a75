-- ===== src/Effects.antt =====
-- Python's exceptions as values, and methods that change an object and may raise: what was written
-- before a raise stays written, so an action gives its state back beside the error too.
use proxsync.Prelude.{◌≡◌, refl, ◌⊎◌, inl, inr}

pub data Result {ℓ} (E A : Type ℓ) : Type ℓ where
  ok : A → Result E A
  raised : E → Result E A

pub Result-cases {ℓ} :
    {E A : Type ℓ} (r : Result E A) → ((a : A) × (r ≡ ok a)) ⊎ ((e : E) × (r ≡ raised e))
Result-cases (ok a) = inl (a, refl)
Result-cases (raised e) = inr (e, refl)

pub ok-injective {ℓ} : {E A : Type ℓ} (a b : A) → ◌≡◌ {A = Result E A} (ok a) (ok b) → a ≡ b
ok-injective a b h = cc

abbrev pub Action {ℓ} : Type ℓ → Type ℓ → Type ℓ → Type ℓ
Action E S A = S → Result E A × S

module _ {ℓ} {E S A : Type ℓ} where
  abbrev pub return : A → Action E S A
  return a s = (ok a, s)

  abbrev pub raise : E → Action E S A
  raise e s = (raised e, s)

  -- A pure computation that may raise.
  abbrev pub lift : Result E A → Action E S A
  lift r s = (r, s)

  abbrev pub reads : (S → A) → Action E S A
  reads f s = (ok (f s), s)

module _ {ℓ} {E S A B : Type ℓ} where
  abbrev pub resume : Result E A → (A → Action E S B) → Action E S B
  resume (ok a) f s = f a s
  resume (raised e) f s = (raised e, s)

  infixl 5 ◌>>=◌
  abbrev pub ◌>>=◌ : Action E S A → (A → Action E S B) → Action E S B
  ◌>>=◌ m f s = resume (m s).0 f (m s).1

module _ {ℓ} {E S B : Type ℓ} where
  infixl 5 ◌>>◌
  abbrev pub ◌>>◌ : Action E S (Unit {ℓ}) → Action E S B → Action E S B
  m >> k = m >>= λ _. k

abbrev pub bind_result {ℓ} : {E A B : Type ℓ} → Result E A → (A → Result E B) → Result E B
bind_result (ok a) f = f a
bind_result (raised e) f = raised e
