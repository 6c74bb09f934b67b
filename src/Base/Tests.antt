-- ===== src/Base/Tests.antt =====
-- Boolean tests on numbers, the conditional, and the interface of a dictionary's keys.
use Prim.Native.Nat.{ℕ, compare, Ordering}
use mathlib.Core.Path.{◌≡◌, refl, ap}
use mathlib.Core.Logic.{◌↔◌, ◌⊎◌, inl, inr}
use mathlib.Core.Bool.{Bool, true, false}
use mathlib.Core.List.{List, [], ◌∷◌}
use mathlib.Core.Option.{Option, none, some}
use native.Mathlib.Omega.{arith}

abbrev pub ltb : ℕ → ℕ → Bool
ltb a b = elim (compare a b) [ Ordering.lt ↦ true | _ ↦ false ]

abbrev pub leb : ℕ → ℕ → Bool
leb a b = elim (compare a b) [ Ordering.gt ↦ false | _ ↦ true ]

infix 50 ◌==◌
abbrev pub ◌==◌ : ℕ → ℕ → Bool
a == b = elim (compare a b) [ Ordering.eq ↦ true | _ ↦ false ]

infix 1 if◌then◌else◌
abbrev pub if◌then◌else◌ {ℓ} : {A : Type ℓ} → Bool → A → A → A
if true then x else y = x
if false then x else y = y

pub ==_iff : (a b : ℕ) → ((a == b) ≡ true) ↔ (a ≡ b)
==_iff a b = ground arith

pub Bool-cases : (b : Bool) → (b ≡ true) ⊎ (b ≡ false)
Bool-cases true = inl refl
Bool-cases false = inr refl

pub Option-cases {ℓ} : {A : Type ℓ} (o : Option A) → (o ≡ none) ⊎ ((a : A) × (o ≡ some a))
Option-cases none = inl refl
Option-cases (some a) = inr (a, refl)

abbrev pub is_some {ℓ} : {A : Type ℓ} → Option A → Bool
is_some none = false
is_some (some _) = true

-- The keys of a dictionary: program numbers and semaphore names.
pub record Clave {ℓ} (A : Type ℓ) : Type ℓ where
  pub igual : A → A → Bool
  pub igual_iff : (a b : A) → (igual a b ≡ true) ↔ (a ≡ b)

-- Names are strings of bytes.
abbrev pub iguales : List ℕ → List ℕ → Bool
iguales [] [] = true
iguales [] (y ∷ ys) = false
iguales (x ∷ xs) [] = false
iguales (x ∷ xs) (y ∷ ys) = if x == y then iguales xs ys else false

abbrev cabeza : List ℕ → ℕ
cabeza [] = 0
cabeza (x ∷ xs) = x

abbrev cola : List ℕ → List ℕ
cola [] = []
cola (x ∷ xs) = xs

pub iguales_iff : (xs ys : List ℕ) → (iguales xs ys ≡ true) ↔ (xs ≡ ys)
iguales_iff [] [] = (λ _. refl, λ _. refl)
iguales_iff [] (y ∷ ys) = (λ e. cc, λ e. cc)
iguales_iff (x ∷ xs) [] = (λ e. cc, λ e. cc)
iguales_iff (x ∷ xs) (y ∷ ys) = (
  λ e.
      let h : x ≡ y = ground (arith, ==_iff x y) in
      let t : iguales xs ys ≡ true = ground arith in let t' = (iguales_iff xs ys).0 t in cc,
  λ e.
      let h = ap cabeza e in
      let t = (iguales_iff xs ys).1 (ap cola e) in ground (arith, ==_iff x y, h, t),
)

instance abbrev pub clave_nombre : Clave (List ℕ)
clave_nombre = record { igual = iguales; igual_iff = iguales_iff }

instance abbrev pub clave_numero : Clave ℕ
clave_numero = record { igual = ◌==◌; igual_iff = ==_iff }
