-- ===== src/Sac/Paths/Fuel.antt =====
-- How deep `dameNodoDe` calls itself (Sac-Server/estructuras.c).
use linuse_tp_os.Base.{
  ℕ, zero, suc, ◌-◌, ◌≤◌, ◌<◌, ◌≡◌, refl, ap, subst, ◌≢◌, ◌⊎◌, inl, inr, false, Option, none, some,
  List, [], ◌∷◌, arith, ◌==◌, Bool-cases, Option-cases, iguales, indeterminado, Resultado, ok,
  fallo, ◌>>=◌, >>=-congruente, desref, en_arreglo, Logra, Logra-ok, Logra-desref, length,
}
use linuse_tp_os.Sac.Paths.{
  barra, ultimo, sin_ultimo, nombre_de, primeros, sin_barra, dividir_ruta, buscar_nodo,
  dame_nodo_con,
}
use linuse_tp_os.Sac.Model.{Archivo}

length-primeros : (n : ℕ) (xs : List ℕ) → length (primeros n xs) ≤ n
unfolding primeros
length-primeros zero xs = omega arith
length-primeros (suc n) [] = omega arith
length-primeros (suc n) (x ∷ xs) = omega (arith, length-primeros n xs)

length-sin_ultimo : (xs : List ℕ) {c : ℕ} → ultimo xs ≡ some c → length (sin_ultimo xs) < length xs
unfolding ultimo sin_ultimo
length-sin_ultimo [] e = cc
length-sin_ultimo (x ∷ []) e = omega arith
length-sin_ultimo (x ∷ y ∷ ys) e = omega (arith, length-sin_ultimo (y ∷ ys) e)

-- The path above has no name: it ends with '/', so it is shorter or another step shortens it.
nombre_de-sin_barra :
    (xs : List ℕ) {n : List ℕ} {c : ℕ}
    → ultimo xs ≡ some c
    → (c == barra) ≡ false
    → nombre_de xs ≡ some n
    → 0 < length n
unfolding ultimo nombre_de
nombre_de-sin_barra [] e b f = cc
nombre_de-sin_barra (x ∷ []) e b f = ground arith
nombre_de-sin_barra (x ∷ y ∷ ys) {n} e b f = elim (Option-cases (nombre_de (y ∷ ys))) [
  | inl g ↦ ground (arith, g)
  | inr (m, g) ↦
      let k = nombre_de-sin_barra (y ∷ ys) e b g in
      let h : some m ≡ some n = cc in let h' : m ≡ n = cc in subst (λ z. 0 < length z) h' k
]

arriba_corta :
    (path ruta nombre : List ℕ)
    → length ruta ≤ length path
    → ((length ruta < length path) ⊎ (0 < length nombre))
    → 0 < length path
    → length (primeros (length ruta - length nombre) ruta) < length path
arriba_corta path ruta nombre l (inl k) z =
    omega (arith, length-primeros (length ruta - length nombre) ruta)
arriba_corta path ruta nombre l (inr k) z =
    omega (arith, length-primeros (length ruta - length nombre) ruta)

ultimo-vacio : (path : List ℕ) {c : ℕ} → ultimo path ≡ some c → 0 < length path
unfolding ultimo
ultimo-vacio [] e = cc
ultimo-vacio (x ∷ xs) e = omega arith

abbrev pub Corta : List ℕ → List ℕ × List ℕ → Type 0
Corta path r = length r.0 < length path

-- `dividirRuta` leaves a shorter path.
pub dividir_ruta-Corta : (path : List ℕ) → Logra (Corta path) (dividir_ruta path)
unfolding dividir_ruta sin_barra
dividir_ruta-Corta path = elim (Option-cases (ultimo path)) [
  | inl e ↦ rw e tt
  | inr (c, e) ↦ elim (Bool-cases (c == barra)) [
    | inl b ↦
        rw (e, b)
          (Logra-desref (Corta path) (nombre_de (sin_ultimo path)) _ λ n f.
            arriba_corta path (sin_ultimo path) n (omega (arith, length-sin_ultimo path e))
              (inl (length-sin_ultimo path e)) (ultimo-vacio path e))
    | inr b ↦
        rw (e, b)
          (Logra-desref (Corta path) (nombre_de path) _ λ n f.
            arriba_corta path path n (omega arith) (inr (nombre_de-sin_barra path e b f))
              (ultimo-vacio path e))
  ]
]

-- With any two bounds above the length of the path the answer is the same.
pub dame_nodo_con-igual :
    (n m : ℕ) (path : List ℕ) (fs : List Archivo)
    → length path < n
    → length path < m
    → dame_nodo_con n path fs ≡ dame_nodo_con m path fs
unfolding dame_nodo_con
dame_nodo_con-igual zero m path fs l k = absurd (omega arith)
dame_nodo_con-igual (suc n) zero path fs l k = absurd (omega arith)
dame_nodo_con-igual (suc n) (suc m) path fs l k = elim (Bool-cases (iguales path (barra ∷ []))) [
  | inl b ↦ rw b refl
  | inr b ↦ rw b (
      >>=-congruente (dividir_ruta path) _ _ λ r e.
        let c = Logra-ok (Corta path) (dividir_ruta path) r (dividir_ruta-Corta path) e in
        ap (λ z. z >>= λ padre. ok (buscar_nodo padre r.1 0 fs))
          (dame_nodo_con-igual n m r.0 fs (omega (arith, c)) (omega (arith, c))))
]

-- Neither the first operation nor what follows it runs out.
>>=-acaba {ℓ κ} :
    {A : Type ℓ} {B : Type κ} (m : Resultado A) (f : A → Resultado B)
    → ((m ≡ fallo indeterminado) → ⊥)
    → ((a : A) → m ≡ ok a → (f a ≡ fallo indeterminado) → ⊥)
    → (m >>= f ≡ fallo indeterminado)
    → ⊥
>>=-acaba (ok a) f h k e = k a refl e
>>=-acaba (fallo x) f h k e = let y : x ≡ indeterminado = cc in h (ap fallo y)

en_arreglo-acaba : (o : Option ℕ) → (en_arreglo o ≡ fallo indeterminado) → ⊥
en_arreglo-acaba none e = cc
en_arreglo-acaba (some a) e = cc

desref-acaba : (o : Option (List ℕ)) → (desref o ≡ fallo indeterminado) → ⊥
desref-acaba none e = cc
desref-acaba (some a) e = cc

dividir_ruta-acaba : (path : List ℕ) → (dividir_ruta path ≡ fallo indeterminado) → ⊥
unfolding dividir_ruta sin_barra
dividir_ruta-acaba path =
    >>=-acaba (sin_barra path) _
      (>>=-acaba (en_arreglo (ultimo path)) _ (en_arreglo-acaba (ultimo path)) λ c e x. cc)
      λ ruta e. >>=-acaba (desref (nombre_de ruta)) _ (desref-acaba (nombre_de ruta)) λ n e1 x. cc

dame_nodo_con-acaba :
    (n : ℕ) (path : List ℕ) (fs : List Archivo)
    → length path < n
    → (dame_nodo_con n path fs ≡ fallo indeterminado)
    → ⊥
unfolding dame_nodo_con
dame_nodo_con-acaba zero path fs l = absurd (omega arith)
dame_nodo_con-acaba (suc n) path fs l = elim (Bool-cases (iguales path (barra ∷ []))) [
  | inl b ↦ rw b λ x. cc
  | inr b ↦ rw b (
      >>=-acaba (dividir_ruta path) _ (dividir_ruta-acaba path) λ r e.
        let c = Logra-ok (Corta path) (dividir_ruta path) r (dividir_ruta-Corta path) e in
        >>=-acaba (dame_nodo_con n r.0 fs) _ (dame_nodo_con-acaba n r.0 fs (omega (arith, c)))
          λ padre x y. cc)
]

-- With a bound above the length of the path the recursion of `dameNodoDe` ends: it does not run out,
-- and the answer is the same for every such bound.
pub dame_nodo_con-suficiente :
    (n m : ℕ) (path : List ℕ) (fs : List Archivo)
    → length path < n
    → length path < m
    → (dame_nodo_con n path fs ≢ fallo indeterminado)
      × (dame_nodo_con n path fs ≡ dame_nodo_con m path fs)
dame_nodo_con-suficiente n m path fs l k =
    (dame_nodo_con-acaba n path fs l, dame_nodo_con-igual n m path fs l k)
