-- ===== src/Prelude/Results.antt =====
-- Results of C code that may fail an `assert`, leave an array, read an indeterminate value or follow a
-- null pointer. `no_fuel` is the model's own: a loop was given too few rounds.
use mathlib.Core.Path.{◌≡◌, refl, subst}
use mathlib.Core.Logic.{◌⊎◌, inl, inr}
use mathlib.Core.Bool.{Bool, true, false}
use roip.Prelude.Tests.{if◌then◌else◌}
use mathlib.Core.Option.{Option, none, some}

pub data Fault : Type 0 where
  assertion out_of_bounds uninitialised null_pointer no_fuel : Fault

-- The code faults, or goes on with a value.
pub data Result {ℓ} (A : Type ℓ) : Type ℓ where
  fault : Fault → Result A
  ok : A → Result A

pub Result-cases {ℓ} :
    {A : Type ℓ} (r : Result A) → ((a : A) × (r ≡ ok a)) ⊎ ((e : Fault) × (r ≡ fault e))
Result-cases (fault e) = inr (e, refl)
Result-cases (ok a) = inl (a, refl)

-- `assert(b)`
abbrev pub assert : Bool → Result (Unit {0})
assert false = fault assertion
assert true = ok tt

-- An access that finds nothing is the fault `x`.
abbrev pub of_option {ℓ} : {V : Type ℓ} → Option V → Fault → Result V
of_option (some v) x = ok v
of_option none x = fault x

infixl 5 ◌>>=◌ ◌>>◌
abbrev pub ◌>>=◌ {ℓ κ} : {S : Type ℓ} {T : Type κ} → Result S → (S → Result T) → Result T
fault x >>= next = fault x
ok s >>= next = next s

abbrev pub ◌>>◌ {κ} : {T : Type κ} → Result (Unit {0}) → Result T → Result T
check >> next = check >>= λ _. next

pub ok-injective {ℓ} : {A : Type ℓ} {a b : A} → ok a ≡ ok b → a ≡ b
ok-injective e = cc

-- A sequence that does not fault has a first part that does not.
pub >>=-eq-ok {ℓ κ} :
    {S : Type ℓ} {T : Type κ} (first : Result S) (next : S → Result T) {t : T}
    → (first >>= next) ≡ ok t
    → (s : S) × (first ≡ ok s) × (next s ≡ ok t)
>>=-eq-ok (fault x) next e = cc
>>=-eq-ok (ok s) next e = (s, refl, e)

-- What holds of the value, if there is one.
unfoldable pub Post {ℓ} : {A : Type ℓ} → (A → Type 0) → Result A → Type 0
Post P (fault x) = Unit
Post P (ok a) = P a

pub Post-bind {ℓ κ} :
    {A : Type ℓ} {B : Type κ} (P : B → Type 0) (m : Result A) (k : A → Result B)
    → ((a : A) → m ≡ ok a → Post P (k a))
    → Post P (m >>= k)
unfolding Post
Post-bind P (fault x) k h = tt
Post-bind P (ok a) k h = h a refl

pub Post-if {ℓ} :
    {A : Type ℓ} (P : A → Type 0) (b : Bool) (x y : Result A)
    → (b ≡ true → Post P x)
    → (b ≡ false → Post P y)
    → Post P (if b then x else y)
unfolding Post
Post-if P true x y f g = f refl
Post-if P false x y f g = g refl

pub Post-use {ℓ} : {A : Type ℓ} (P : A → Type 0) (m : Result A) {a : A} → Post P m → m ≡ ok a → P a
unfolding Post
Post-use P m p e = subst (Post P) e p
