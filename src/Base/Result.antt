-- ===== src/Base/Result.antt =====
-- The outcome of an operation of a server: its value, or the way in which the process stops or waits.
use mathlib.Core.Path.{◌≡◌, refl, subst}
use mathlib.Core.Logic.{◌⊎◌, inl, inr}
use mathlib.Core.Bool.{Bool, true, false}
use mathlib.Core.Option.{Option, none, some}
use linuse_tp_os.Base.Tests.{if◌then◌else◌}

pub data Fallo : Type 0 where
  -- a NULL pointer is dereferenced
  puntero_nulo : Fallo
  -- `exit(-1)`
  salida : Fallo
  -- a semaphore or mutex that the calling thread must wait for
  espera : Fallo
  -- an index outside an array
  fuera_de_rango : Fallo
  -- a variable that was never set is read
  indeterminado : Fallo

pub data Resultado {ℓ} (A : Type ℓ) : Type ℓ where
  ok : A → Resultado A
  fallo : Fallo → Resultado A

-- The rest of an operation runs on the value of a part that succeeded.
infixl 5 ◌>>=◌
abbrev pub ◌>>=◌ {ℓ κ} : {B : Type κ} {A : Type ℓ} → Resultado A → (A → Resultado B) → Resultado B
fallo motivo >>= resto = fallo motivo
ok valor >>= resto = resto valor

-- Two rests that agree on the value that comes.
pub >>=-congruente {ℓ κ} :
    {B : Type κ} {A : Type ℓ} (m : Resultado A) (f g : A → Resultado B)
    → ((a : A) → m ≡ ok a → f a ≡ g a)
    → (m >>= f) ≡ (m >>= g)
>>=-congruente (ok a) f g k = k a refl
>>=-congruente (fallo x) f g k = refl

pub Resultado-cases {ℓ} :
    {A : Type ℓ} (m : Resultado A) → ((a : A) × (m ≡ ok a)) ⊎ ((x : Fallo) × (m ≡ fallo x))
Resultado-cases (ok a) = inl (a, refl)
Resultado-cases (fallo x) = inr (x, refl)

-- A pointer that is dereferenced.
abbrev pub desref {ℓ} : {A : Type ℓ} → Option A → Resultado A
desref none = fallo puntero_nulo
desref (some a) = ok a

-- An entry of an array of C.
abbrev pub en_arreglo {ℓ} : {A : Type ℓ} → Option A → Resultado A
en_arreglo none = fallo fuera_de_rango
en_arreglo (some a) = ok a

-- What holds of the value of an operation that succeeds.
abbrev pub Logra {ℓ κ} : {A : Type ℓ} → (A → Type κ) → Resultado A → Type κ
Logra P (ok a) = P a
Logra P (fallo e) = Unit

pub Logra->>= {ℓ κ μ} :
    {A : Type ℓ} {B : Type κ} (P : A → Type μ) (Q : B → Type μ) (m : Resultado A)
    (f : A → Resultado B)
    → Logra P m
    → ((a : A) → m ≡ ok a → P a → Logra Q (f a))
    → Logra Q (m >>= f)
Logra->>= P Q (ok a) f p k = k a refl p
Logra->>= P Q (fallo e) f p k = tt

-- The same, with nothing known of the value of the part.
pub Logra-resto {ℓ κ μ} :
    {A : Type ℓ} {B : Type κ} (Q : B → Type μ) (m : Resultado A) (f : A → Resultado B)
    → ((a : A) → m ≡ ok a → Logra Q (f a))
    → Logra Q (m >>= f)
Logra-resto Q (ok a) f k = k a refl
Logra-resto Q (fallo e) f k = tt

pub Logra-if {ℓ κ} :
    {A : Type ℓ} (P : A → Type κ) (b : Bool) (m n : Resultado A)
    → (b ≡ true → Logra P m)
    → (b ≡ false → Logra P n)
    → Logra P (if b then m else n)
Logra-if P true m n h k = h refl
Logra-if P false m n h k = k refl

pub Logra-ambos {ℓ κ} :
    {A : Type ℓ} (P Q S : A → Type κ) (m : Resultado A)
    → Logra P m
    → Logra Q m
    → ((a : A) → P a → Q a → S a)
    → Logra S m
Logra-ambos P Q S (ok a) p q f = f a p q
Logra-ambos P Q S (fallo e) p q f = tt

pub Logra-ok {ℓ κ} :
    {A : Type ℓ} (P : A → Type κ) (m : Resultado A) (a : A) → Logra P m → m ≡ ok a → P a
Logra-ok P m a p e = rw e at p

-- The rule for a pointer that the code goes on with.
pub Logra-desref {ℓ κ μ} :
    {A : Type ℓ} {B : Type κ} (Q : B → Type μ) (o : Option A) (f : A → Resultado B)
    → ((a : A) → o ≡ some a → Logra Q (f a))
    → Logra Q (desref o >>= f)
Logra-desref Q none f k = tt
Logra-desref Q (some a) f k = k a refl

pub Logra-weaken {ℓ κ μ} :
    {A : Type ℓ} (P : A → Type κ) (Q : A → Type μ) (m : Resultado A)
    → Logra P m
    → ((a : A) → P a → Logra Q (ok a))
    → Logra Q m
Logra-weaken P Q (ok a) p k = k a p
Logra-weaken P Q (fallo e) p k = tt

-- The operation succeeds, and its value has the property.
abbrev pub Garantiza {ℓ} : {A : Type ℓ} → (A → Type 0) → Resultado A → Type 0
Garantiza P (ok a) = P a
Garantiza P (fallo e) = ⊥

pub Garantiza->>= {ℓ κ} :
    {A : Type ℓ} {B : Type κ} (P : A → Type 0) (Q : B → Type 0) (m : Resultado A)
    (f : A → Resultado B)
    → Garantiza P m
    → ((a : A) → m ≡ ok a → P a → Garantiza Q (f a))
    → Garantiza Q (m >>= f)
Garantiza->>= P Q (ok a) f h k = k a refl h
Garantiza->>= P Q (fallo e) f h k = absurd h

pub Garantiza-ok {ℓ} :
    {A : Type ℓ} (P : A → Type 0) (m : Resultado A) {a : A} → Garantiza P m → m ≡ ok a → P a
Garantiza-ok P (ok b) h e = subst (Garantiza P) e h
Garantiza-ok P (fallo x) h e = absurd h

pub Garantiza-desref {ℓ κ} :
    {A : Type ℓ} {B : Type κ} (Q : B → Type 0) (o : Option A) (a : A) (f : A → Resultado B)
    → o ≡ some a
    → Garantiza Q (f a)
    → Garantiza Q (desref o >>= f)
Garantiza-desref Q (some b) a f e h = let g : a ≡ b = cc in subst (λ x. Garantiza Q (f x)) g h
Garantiza-desref Q none a f e h = cc

pub Garantiza-weaken {ℓ} :
    {A : Type ℓ} (P Q : A → Type 0) (m : Resultado A)
    → Garantiza P m
    → ((a : A) → P a → Q a)
    → Garantiza Q m
Garantiza-weaken P Q (ok a) h k = k a h
Garantiza-weaken P Q (fallo e) h k = h

pub Garantiza-Logra {ℓ} :
    {A : Type ℓ} (P : A → Type 0) (m : Resultado A) → Garantiza P m → Logra P m
Garantiza-Logra P (ok a) h = h
Garantiza-Logra P (fallo e) h = tt
