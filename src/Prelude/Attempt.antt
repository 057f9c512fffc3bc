-- ===== src/Prelude/Attempt.antt =====
-- Go's pair of a value and an error, of which one is there.
use wird.Prelude.{◌≡◌, refl}

pub data Attempt {ℓ} (E : Type ℓ) (A : Type ℓ) : Type ℓ where
  done : A → Attempt E A
  fail : E → Attempt E A

infixl 5 ◌>>=◌ ◌>>◌
abbrev pub ◌>>=◌ {ℓ} : {E A B : Type ℓ} → Attempt E A → (A → Attempt E B) → Attempt E B
done a >>= f = f a
fail e >>= f = fail e

abbrev pub ◌>>◌ {ℓ} : {E A B : Type ℓ} → Attempt E A → Attempt E B → Attempt E B
m >> k = m >>= λ _. k

-- A bind that succeeds has a first step that does, and that failed has a step that did.
pub >>=-eq-done {ℓ} :
    {E A B : Type ℓ} (m : Attempt E A) (f : A → Attempt E B) {b : B}
    → (m >>= f) ≡ done b
    → (a : A) × (m ≡ done a) × (f a ≡ done b)
>>=-eq-done (done a) f h = (a, refl, h)
>>=-eq-done (fail e) f h = cc

pub >>-eq-done {ℓ} :
    {E A B : Type ℓ} (m : Attempt E A) (k : Attempt E B) {b : B} → (m >> k) ≡ done b → k ≡ done b
>>-eq-done (done a) k h = h
>>-eq-done (fail e) k h = cc
