-- ===== src/Common/Result.antt =====
-- Results with an error value, and the chain of fallible steps.
use mathlib.Core.Path.{◌≡◌, refl}
use mathlib.Core.Bool.{Bool, true, false}

pub data Result {ℓ κ} (E : Type ℓ) (A : Type κ) : Type (ℓ ⊔ κ) where
  ok : A → Result E A
  err : E → Result E A

-- `if !test { return err }`
abbrev pub guard {ℓ} : {E : Type ℓ} → Bool → E → Result E (Unit {0})
guard false failure = err failure
guard true failure = ok tt

infixl 5 ◌>>=◌ ◌>>◌
abbrev pub ◌>>=◌ {ℓ κ λ'} :
    {E : Type ℓ} {A : Type κ} {B : Type λ'} → Result E A → (A → Result E B) → Result E B
err failure >>= next = err failure
ok value >>= next = next value

abbrev pub ◌>>◌ {ℓ κ} : {E : Type ℓ} {B : Type κ} → Result E (Unit {0}) → Result E B → Result E B
checked >> next = checked >>= λ _. next

-- A chain that succeeds has a first step that does.
pub >>=-eq-ok {ℓ κ λ'} :
    {E : Type ℓ} {A : Type κ} {B : Type λ'} (first : Result E A) (next : A → Result E B) {final : B}
    → (first >>= next) ≡ ok final
    → (value : A) × (first ≡ ok value) × (next value ≡ ok final)
>>=-eq-ok (err failure) next eq = cc
>>=-eq-ok (ok value) next eq = (value, refl, eq)

pub guard-eq-ok {ℓ κ} :
    {E : Type ℓ} {B : Type κ} (test : Bool) (failure : E) (next : Result E B) {final : B}
    → (guard test failure >> next) ≡ ok final
    → (test ≡ true) × (next ≡ ok final)
guard-eq-ok false failure next eq = cc
guard-eq-ok true failure next eq = (refl, eq)

-- To prove a property of what is computed from a result, prove it of each case.
pub result-intro {ℓ κ} :
    {E A : Type 0} {B : Type ℓ} (P : B → Type κ) (o : Result E A) (x : A → B) (y : E → B)
    → ((a : A) → o ≡ ok a → P (x a))
    → ((e : E) → o ≡ err e → P (y e))
    → P (elim o [ ok a ↦ x a | err e ↦ y e ])
result-intro P (ok a) x y p q = p a refl
result-intro P (err e) x y p q = q e refl
