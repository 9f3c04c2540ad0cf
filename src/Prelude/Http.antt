-- ===== src/Prelude/Http.antt =====
-- What a gin handler or middleware answers: the status and message of its JSON body, or a pass on
-- to the next handler of the chain.
use Prim.Native.Nat.{ℕ}
use Prim.Native.String.{String}
use mathlib.Core.Path.{◌≡◌, refl}
use mathlib.Core.Logic.{◌⊎◌, inl, inr}
use mathlib.Core.Bool.{Bool, true, false}

pub record Reply : Type 0 where
  pub status : ℕ
  pub msg : String

abbrev pub reply : ℕ → String → Reply
reply status msg = record { status = status; msg = msg }

pub data Outcome {ℓ} (A : Type ℓ) : Type ℓ where
  abort : Reply → Outcome A
  pass : A → Outcome A

infixl 5 ◌>>=◌
abbrev pub ◌>>=◌ {ℓ κ} : {A : Type ℓ} {B : Type κ} → Outcome A → (A → Outcome B) → Outcome B
abort r >>= f = abort r
pass a >>= f = f a

abbrev pub guard : Bool → Reply → Outcome (Unit {0})
guard true r = pass tt
guard false r = abort r

infixl 5 ◌>>◌
abbrev pub ◌>>◌ {ℓ} : {B : Type ℓ} → Outcome (Unit {0}) → Outcome B → Outcome B
m >> k = m >>= λ _. k

pub Outcome-cases {ℓ} :
    {A : Type ℓ} (o : Outcome A) → ((r : Reply) × (o ≡ abort r)) ⊎ ((a : A) × (o ≡ pass a))
Outcome-cases (abort r) = inl (r, refl)
Outcome-cases (pass a) = inr (a, refl)

pub >>=-eq-pass {ℓ κ} :
    {A : Type ℓ} {B : Type κ} (m : Outcome A) (f : A → Outcome B) {b : B}
    → (m >>= f) ≡ pass b
    → (a : A) × (m ≡ pass a) × (f a ≡ pass b)
>>=-eq-pass (pass a) f h = (a, refl, h)
>>=-eq-pass (abort r) f h = cc

-- The same with what follows from the parts, so that nested inversions stay small.
pub pass_parts {ℓ κ μ} :
    {A : Type ℓ} {B : Type κ} {P : Type μ} (m : Outcome A) (f : A → Outcome B) {b : B}
    → (m >>= f) ≡ pass b
    → ((a : A) → m ≡ pass a → f a ≡ pass b → P)
    → P
pass_parts (pass a) f h k = k a refl h
pass_parts (abort r) f h k = absurd (cc)

pub pass-injective {ℓ} : {A : Type ℓ} {a b : A} → pass a ≡ pass b → a ≡ b
pass-injective h = cc
