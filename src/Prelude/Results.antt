-- ===== src/Prelude/Results.antt =====
-- Calls that return or throw. `err e` stands for a thrown error, so that `do` stops there.
use mathlib.Core.Path.{◌≡◌, refl, ap}
use mathlib.Core.Logic.{◌⊎◌, inl, inr}
use mathlib.Core.Bool.{Bool, true, false}

pub data Result {ℓ κ} (E : Type ℓ) (A : Type κ) : Type (ℓ ⊔ κ) where
  ok : A → Result E A
  err : E → Result E A

module _ {ℓ κ} {E : Type ℓ} {Y : Type κ} where
  infixl 5 ◌>>=◌ ◌>>◌
  -- The rest of a function, which a thrown error skips.
  abbrev pub ◌>>=◌ {ι} : {X : Type ι} → Result E X → (X → Result E Y) → Result E Y
  err thrown >>= next = err thrown
  ok x >>= next = next x

  abbrev pub ◌>>◌ : Result E (Unit {0}) → Result E Y → Result E Y
  call >> rest = call >>= λ done. rest

-- `if (c) throw e;`
abbrev pub throw_if {ℓ} : {E : Type ℓ} → Bool → E → Result E (Unit {0})
throw_if true e = err e
throw_if false e = ok tt

-- `try { m } catch { return a; }`
abbrev pub catch {ℓ κ} : {E : Type ℓ} {A : Type κ} → Result E A → A → A
catch (ok a) b = a
catch (err e) b = b

-- The call returns, with a result of the property.
abbrev pub Returns {ℓ κ ι} :
    {E : Type ℓ} {A : Type κ} → Result E A → (A → Type ι) → Type (ℓ ⊔ κ ⊔ ι)
Returns {A} r P = (a : A) × (r ≡ ok a) × P a

-- The two halves of a call that returned.
pub >>=-eq-ok {ℓ κ ι} :
    {E : Type ℓ} {X : Type κ} {Y : Type ι} (first : Result E X) (next : X → Result E Y) {y : Y}
    → (first >>= next) ≡ ok y
    → (x : X) × (first ≡ ok x) × (next x ≡ ok y)
>>=-eq-ok (err thrown) next returned = cc
>>=-eq-ok (ok x) next returned = (x, refl, returned)

pub throw_if-eq-ok {ℓ} : {E : Type ℓ} (c : Bool) (e : E) → throw_if c e ≡ ok tt → c ≡ false
throw_if-eq-ok true e h = cc
throw_if-eq-ok false e h = refl

-- A guard that lets the call through, and what the rest returns.
pub throw_if_inv {ℓ ι} :
    {E : Type ℓ} {B : Type ι} (c : Bool) (e : E) (k : Result E B) {b : B}
    → (throw_if c e >> k) ≡ ok b
    → (c ≡ false) × (k ≡ ok b)
throw_if_inv true e k h = cc
throw_if_inv false e k h = (refl, h)

pub Result-cases {ℓ κ} :
    {E : Type ℓ} {A : Type κ} (r : Result E A) → ((a : A) × (r ≡ ok a)) ⊎ ((e : E) × (r ≡ err e))
Result-cases (ok a) = inl (a, refl)
Result-cases (err e) = inr (e, refl)

abbrev pub get_ok {ℓ κ} : {E : Type ℓ} {A : Type κ} → A → Result E A → A
get_ok a (ok b) = b
get_ok a (err e) = a

pub ok-injective {ℓ κ} :
    {E : Type ℓ} {A : Type κ} {a b : A} → ◌≡◌ {A = Result E A} (ok a) (ok b) → a ≡ b
ok-injective {a} e = ap (get_ok a) e
