-- ===== src/Prelude/Errors.antt =====
-- A value or an error's message, Go's `(T, error)`.
use mathlib.Core.Path.{◌≡◌, refl, subst}
use mathlib.Core.List.{List}
use Prim.Native.Nat.{ℕ}

infixl 5 ◌>>=◌
pub data Result {ℓ} (A : Type ℓ) : Type ℓ where
  err : List ℕ → Result A
  ok : A → Result A

-- An early return of the first error.
abbrev pub ◌>>=◌ {ℓ κ} : {B : Type κ} {A : Type ℓ} → Result A → (A → Result B) → Result B
err message >>= next = err message
ok value >>= next = next value

-- What a chain that succeeds went through.
pub >>=-eq-ok {ℓ κ} :
    {B : Type κ} {A : Type ℓ} (first : Result A) (next : A → Result B) {last : B}
    → (first >>= next) ≡ ok last
    → (mid : A) × (next mid ≡ ok last) × (first ≡ ok mid)
>>=-eq-ok (err message) next e = cc
>>=-eq-ok (ok mid) next e = (mid, e, refl)

-- A predicate on the value, if there is one.
pub data AllOk {ℓ κ} {A : Type ℓ} (P : A → Type κ) : Result A → Type (ℓ ⊔ κ) where
  failed : {message : List ℕ} → AllOk P (err message)
  passed : {value : A} → P value → AllOk P (ok value)

ok_injective {ℓ} : {A : Type ℓ} {x y : A} → ok x ≡ ok y → x ≡ y
ok_injective e = cc

pub AllOk-ok {ℓ κ} :
    {A : Type ℓ} (P : A → Type κ) {first : Result A} {value : A}
    → first ≡ ok value
    → AllOk P first
    → P value
AllOk-ok P e (failed) = cc
AllOk-ok P e (passed h) = subst P (ok_injective e) h

-- A chain of operations keeps what every operation of it establishes.
pub >>=-AllOk {ℓ κ μ ν} :
    {A : Type ℓ} {B : Type κ} (P : A → Type μ) (Q : B → Type ν) (first : Result A)
    (next : A → Result B)
    → AllOk P first
    → ((value : A) → P value → AllOk Q (next value))
    → AllOk Q (first >>= next)
>>=-AllOk P Q (err message) next h k = failed
>>=-AllOk P Q (ok value) next (passed h) k = k value h

pub >>=-AllOk_any {ℓ κ ν} :
    {A : Type ℓ} {B : Type κ} (Q : B → Type ν) (first : Result A) (next : A → Result B)
    → ((value : A) → AllOk Q (next value))
    → AllOk Q (first >>= next)
>>=-AllOk_any Q (err message) next k = failed
>>=-AllOk_any Q (ok value) next k = k value
