-- ===== src/Base/Dicts.antt =====
-- A `t_dictionary` of the commons library: an association list, where a `put` at a key that is there
-- replaces the value, and a `get` of a missing key is NULL.
use Prim.Native.Nat.{ℕ, ◌+◌, ◌≤◌}
use mathlib.Core.Path.{◌≡◌, refl}
use mathlib.Core.Bool.{Bool}
use mathlib.Core.List.{List, [], ◌∷◌}
use mathlib.Core.Option
use mathlib.Core.Option.{Option, none, some}
use native.Mathlib.Omega.{arith}
use linuse_tp_os.Base.Tests.{Clave, if◌then◌else◌, is_some}

abbrev pub Dict {ℓ κ} : Type ℓ → Type κ → Type (ℓ ⊔ κ)
Dict K V = List (K × V)

module _ {ℓ κ} {K : Type ℓ} {V : Type κ} ⦃e : Clave K⦄ where
  unfoldable pub lookup : K → Dict K V → Option V
  lookup k [] = none
  lookup k ((j, v) ∷ d) = if e.igual j k then some v else lookup k d

  unfoldable pub insert : K → V → Dict K V → Dict K V
  insert k v [] = (k, v) ∷ []
  insert k v ((j, w) ∷ d) = if e.igual j k then (j, v) ∷ d else (j, w) ∷ insert k v d

  unfoldable pub erase : K → Dict K V → Dict K V
  erase k [] = []
  erase k ((j, w) ∷ d) = let rest = erase k d in if e.igual j k then rest else (j, w) ∷ rest

  abbrev pub has_key : K → Dict K V → Bool
  has_key k d = is_some (lookup k d)

  pub lookup-insert :
      (k j : K) (v : V) (d : Dict K V)
      → lookup j (insert k v d) ≡ (if e.igual k j then some v else lookup j d)
  unfolding lookup insert
  lookup-insert k j v [] = refl
  lookup-insert k j v ((i, w) ∷ d) =
      ground (arith, e.igual_iff k j, e.igual_iff i k, e.igual_iff i j, lookup-insert k j v d)

  pub lookup-insert_self : (k : K) (v : V) (d : Dict K V) → lookup k (insert k v d) ≡ some v
  lookup-insert_self k v d = ground (arith, lookup-insert k k v d, e.igual_iff k k)

  pub lookup-erase :
      (k j : K) (d : Dict K V) → lookup j (erase k d) ≡ (if e.igual k j then none else lookup j d)
  unfolding lookup erase
  lookup-erase k j [] = ground arith
  lookup-erase k j ((i, w) ∷ d) =
      ground (arith, e.igual_iff k j, e.igual_iff i k, e.igual_iff i j, lookup-erase k j d)

  -- Writing back what is there, or what was there before an earlier write.
  pub insert-lookup : (k : K) (v : V) (d : Dict K V) → lookup k d ≡ some v → insert k v d ≡ d
  unfolding lookup insert
  insert-lookup k v [] h = ground arith
  insert-lookup k v ((i, w) ∷ d) h = ground (arith, insert-lookup k v d)

  pub insert-insert : (k : K) (v w : V) (d : Dict K V) → insert k v (insert k w d) ≡ insert k v d
  unfolding insert
  insert-insert k v w [] = ground (arith, e.igual_iff k k)
  insert-insert k v w ((i, u) ∷ d) = ground (arith, insert-insert k v w d)

-- A function applied to each value.
module _ {ℓ κ μ} {K : Type ℓ} {V : Type κ} {W : Type μ} where
  unfoldable pub map_values : (V → W) → Dict K V → Dict K W
  map_values f [] = []
  map_values f ((k, v) ∷ d) = (k, f v) ∷ map_values f d

module _ {ℓ κ μ} {K : Type ℓ} {V : Type κ} {W : Type μ} ⦃e : Clave K⦄ where
  pub lookup-map_values :
      (f : V → W) (k : K) (d : Dict K V) → lookup k (map_values f d) ≡ Option.map f (lookup k d)
  unfolding lookup map_values
  lookup-map_values f k [] = refl
  lookup-map_values f k ((j, v) ∷ d) = ground (arith, lookup-map_values f k d)

  -- A write that `f` does not see.
  pub map_values-insert_same :
      (f : V → W) (k : K) (v w : V) (d : Dict K V)
      → lookup k d ≡ some v
      → f w ≡ f v
      → map_values f (insert k w d) ≡ map_values f d
  unfolding lookup map_values insert
  map_values-insert_same f k v w [] h g = cc
  map_values-insert_same f k v w ((j, u) ∷ d) h g = ground (arith, map_values-insert_same f k v w d)

-- The weight of a value that may be missing, and what the values of a dictionary add up to.
abbrev pub valor {κ} : {V : Type κ} → (V → ℕ) → Option V → ℕ
valor f none = 0
valor f (some v) = f v

module _ {ℓ κ} {K : Type ℓ} {V : Type κ} where
  unfoldable pub suma : (V → ℕ) → Dict K V → ℕ
  suma f [] = 0
  suma f ((k, v) ∷ d) = f v + suma f d

module _ {ℓ κ} {K : Type ℓ} {V : Type κ} ⦃e : Clave K⦄ where
  pub suma-insert :
      (f : V → ℕ) (k : K) (v : V) (d : Dict K V)
      → suma f (insert k v d) + valor f (lookup k d) ≡ suma f d + f v
  unfolding suma insert lookup
  suma-insert f k v [] = omega arith
  suma-insert f k v ((j, w) ∷ d) = ground (arith, suma-insert f k v d)

pub suma-erase {ℓ κ} :
    {K : Type ℓ} {V : Type κ} ⦃e : Clave K⦄ (f : V → ℕ) (k : K) (d : Dict K V)
    → suma f (erase k d) ≤ suma f d
unfolding suma erase
suma-erase f k [] = omega arith
suma-erase f k ((j, w) ∷ d) = ground (arith, suma-erase f k d)

pub suma-map_values {ℓ κ μ} :
    {K : Type ℓ} {V : Type κ} {W : Type μ} (f : W → ℕ) (g : V → ℕ) (h : V → W) (d : Dict K V)
    → ((v : V) → f (h v) ≡ g v)
    → suma f (map_values h d) ≡ suma g d
unfolding suma map_values
suma-map_values f g h [] e = refl
suma-map_values f g h ((k, v) ∷ d) e = omega (arith, e v, suma-map_values f g h d e)
