-- ===== src/Common/Results.antt =====
-- A Python call that returns a value or raises, and Python's signed integers where the code tests
-- the sign.
use Prim.Native.Nat.{ℕ, ◌+◌, ◌-◌}
use mathlib.Core.Path.{◌≡◌, refl, ap}
use mathlib.Core.Logic.{◌⊎◌, inl, inr}
use arp_spec.Common.Tests.{leb, if◌then◌else◌}

pub data Outcome {ℓ κ} (E : Type ℓ) (A : Type κ) : Type (ℓ ⊔ κ) where
  ok : A → Outcome E A
  err : E → Outcome E A

infixl 5 ◌>>=◌ ◌>>◌
-- the next statement of a body, which an exception skips
abbrev pub ◌>>=◌ {ℓ κ μ} :
    {E : Type ℓ} {A : Type κ} {B : Type μ} → Outcome E A → (A → Outcome E B) → Outcome E B
o >>= next = elim o [ ok a ↦ next a | err raised ↦ err raised ]

abbrev pub ◌>>◌ {ℓ κ} : {E : Type ℓ} {B : Type κ} → Outcome E (Unit {0}) → Outcome E B → Outcome E B
o >> next = o >>= λ _. next

pub Outcome-cases {ℓ κ} :
    {E : Type ℓ} {A : Type κ} (o : Outcome E A) → ((a : A) × (o ≡ ok a)) ⊎ ((e : E) × (o ≡ err e))
Outcome-cases (ok a) = inl (a, refl)
Outcome-cases (err e) = inr (e, refl)

-- a body that returned has passed its first statement
pub >>=-eq-ok {ℓ κ μ} :
    {E : Type ℓ} {A : Type κ} {B : Type μ} (first : Outcome E A) (rest : A → Outcome E B)
    {result : B} (returned : (first >>= rest) ≡ ok result)
    → (value : A) × (first ≡ ok value) × (rest value ≡ ok result)
>>=-eq-ok (ok value) rest returned = (value, refl, returned)
>>=-eq-ok (err raised) rest returned = cc

-- `negsuc n` is -(n + 1)
pub data ℤ : Type 0 where
  pos : ℕ → ℤ
  negsuc : ℕ → ℤ

-- `a - b`
abbrev pub subz : ℤ → ℤ → ℤ
subz (pos a) (pos b) = if leb b a then pos (a - b) else negsuc (b - a - 1)
subz (pos a) (negsuc b) = pos (a + b + 1)
subz (negsuc a) (pos b) = negsuc (a + b)
subz (negsuc a) (negsuc b) = if leb a b then pos (b - a) else negsuc (a - b - 1)

second_of : {A B E : Type 0} → B → Outcome E (A × B) → B
second_of d (ok (_, b)) = b
second_of d (err _) = d

pub ok-second :
    {A B E : Type 0} {o : Outcome E (A × B)} {a : A} {b : B} {a' : A} {b' : B}
    → o ≡ ok (a, b)
    → o ≡ ok (a', b')
    → b ≡ b'
unfolding second_of
ok-second {b = b} e e' = rw e at (ap (second_of b) e')

first_of : {A B E : Type 0} → A → Outcome E (A × B) → A
first_of d (ok (a, _)) = a
first_of d (err _) = d

pub ok-first :
    {A B E : Type 0} {o : Outcome E (A × B)} {a : A} {b : B} {a' : A} {b' : B}
    → o ≡ ok (a, b)
    → o ≡ ok (a', b')
    → a ≡ a'
unfolding first_of
ok-first {a = a} e e' = rw e at (ap (first_of a) e')

pub not_raised {ℓ κ μ} : {E : Type ℓ} {A : Type κ} {C : Type μ} {x : E} {a : A} → err x ≡ ok a → C
not_raised h = cc h

pub ok-injective {ℓ κ} :
    {E : Type ℓ} {A : Type κ} {a b : A} → (Path (Outcome E A) (ok a) (ok b)) → a ≡ b
ok-injective h = cc h

pub err-injective {ℓ κ} :
    {E : Type ℓ} {A : Type κ} {x y : E} → (Path (Outcome E A) (err x) (err y)) → x ≡ y
err-injective h = cc h
