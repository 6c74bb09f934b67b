-- ===== src/Sac/Freeing/Bits.antt =====
-- Which bits of the bitmap are cleared when the blocks of a file are freed (Sac-Server/estructuras.c).
use linuse_tp_os.Base.{
  ℕ, zero, suc, ◌<◌, ◌≡◌, refl, sym, ap, ◌∙◌, subst, ◌⊎◌, inl, inr, false, some, List, arith, ◌==◌,
  ==_iff, Bool-cases, Option-cases, clave_nombre, clave_numero, fuera_de_rango, indeterminado, ok,
  fallo, Logra, Logra->>=, Logra-resto, Logra-weaken, get_elem?, set, get_elem?-set_self,
  get_elem?-set_ne, get_elem?-lt, lookup,
}
use linuse_tp_os.Sac.Model.{Disco}
use linuse_tp_os.Sac.Freeing.{limpiar_bit, borrar_datos, punteros_de}
use linuse_tp_os.Sac.Blocks.{leer_en}

-- The block is free in the bitmap.
abbrev pub Libre : ℕ → Disco → Type 0
Libre n e = get_elem? e.bitmap n ≡ some false

-- The blocks of which `D` holds become free, and no other bit changes.
abbrev pub Borra : (ℕ → Type 0) → Disco → Disco → Type 0
Borra D d e =
    ((n : ℕ) → D n → Libre n e)
    × ((n : ℕ) → (get_elem? e.bitmap n ≡ get_elem? d.bitmap n) ⊎ D n)
    × (e.bloques_de_punteros ≡ d.bloques_de_punteros)

pub Borra-sigue :
    (D P : ℕ → Type 0) (d e a : Disco) → Borra D d e → Borra P e a → Borra (λ n. D n ⊎ P n) d a
Borra-sigue D P d e a (l, o, p) (l1, o1, p1) = (
  λ n x. elim x [ inr y ↦ l1 n y | inl y ↦ elim (o1 n) [ inl q ↦ q ∙ l n y | inr z ↦ l1 n z ] ],
  λ n. elim (o1 n) [
    | inr y ↦ inr (inr y)
    | inl q ↦ elim (o n) [ inl q2 ↦ inl (q ∙ q2) | inr x ↦ inr (inl x) ]
  ],
  p1 ∙ p,
)

pub Borra-cambia :
    (D P : ℕ → Type 0) (d e : Disco)
    → ((n : ℕ) → D n → P n)
    → ((n : ℕ) → P n → D n)
    → Borra D d e
    → Borra P d e
Borra-cambia D P d e f g (l, o, p) =
    (λ n x. l n (g n x), λ n. elim (o n) [ inl q ↦ inl q | inr x ↦ inr (f n x) ], p)

pub limpiar_bit-Borra : (n : ℕ) (d : Disco) → Logra (Borra (λ m. n ≡ m) d) (limpiar_bit n d)
unfolding limpiar_bit
limpiar_bit-Borra n d = elim (Option-cases (get_elem? d.bitmap n)) [
  | inl e ↦ rw e tt
  | inr (b, e) ↦
      let h = get_elem?-lt d.bitmap n e in
      rw e (
        λ m p.
            subst (λ k. get_elem? (set d.bitmap n false) k ≡ some false) p
              (get_elem?-set_self d.bitmap n false h),
        λ m. elim (Bool-cases (n == m)) [
          | inl t ↦ inr ((==_iff n m).0 t)
          | inr t ↦
              inl
                (get_elem?-set_ne d.bitmap {i = n} {j = m} false (λ p. ground (arith, ==_iff n m)))
        ],
        refl,
      )
]

pub leer_en-ok : (xs : List ℕ) (i n : ℕ) → leer_en xs i ≡ ok n → get_elem? xs i ≡ some n
leer_en-ok xs i n e = elim (Option-cases (get_elem? xs i)) [
  | inl x ↦ absurd (let y : fallo fuera_de_rango ≡ ok n = rw (x, leer_en) at e in cc)
  | inr (m, x) ↦ let y : ok m ≡ ok n = rw (x, leer_en) at e in let z : m ≡ n = cc in x ∙ ap some z
]

pub punteros_de-ok :
    (n : ℕ) (d : Disco) (ps : List ℕ)
    → punteros_de n d ≡ ok ps
    → lookup n d.bloques_de_punteros ≡ some ps
unfolding punteros_de
punteros_de-ok n d ps e = elim (Option-cases (lookup n d.bloques_de_punteros)) [
  | inl x ↦ absurd (let y : fallo indeterminado ≡ ok ps = rw (x, punteros_de) at e in cc)
  | inr (m, x) ↦
      let y : ok m ≡ ok ps = rw (x, punteros_de) at e in let z : m ≡ ps = cc in x ∙ ap some z
]

-- The first `p` numbers of a block of pointers.
abbrev pub EnBloque : List ℕ → ℕ → ℕ → Type 0
EnBloque aux p n = (k : ℕ) × (k < p) × (get_elem? aux k ≡ some n)

pub borrar_datos-Borra :
    (aux : List ℕ) (p : ℕ) (d : Disco) → Logra (Borra (EnBloque aux p) d) (borrar_datos aux 0 p d)
unfolding borrar_datos
borrar_datos-Borra aux zero d = (λ n x. absurd (omega (arith, x.1)), λ n. inl refl, refl)
borrar_datos-Borra aux (suc p) d =
    let z : (0 == suc p) ≡ false = ground arith in
    let Q = Borra (EnBloque aux (suc p)) d in
    rw z (
      Logra-resto Q (leer_en aux p) _ λ n e.
        Logra->>= (Borra (λ m. n ≡ m) d) Q (limpiar_bit n d) _ (limpiar_bit-Borra n d) λ d1 m l.
          let d2 = record d1 { bitmap_free_blocks = suc d1.bitmap_free_blocks } in
          Logra-weaken (Borra (EnBloque aux p) d2) Q (borrar_datos aux 0 p d2)
            (borrar_datos-Borra aux p d2)
            λ a h.
              Borra-cambia (λ m. (n ≡ m) ⊎ EnBloque aux p m) (EnBloque aux (suc p)) d a
                (λ m x. elim x [
                  | inl q ↦ (p, omega arith, leer_en-ok aux p n e ∙ ap some q)
                  | inr (k, u, v) ↦ (k, omega (arith, u), v)
                ])
                (λ m x. elim (Bool-cases (x.0 == p)) [
                  | inl b ↦
                      let q : x.0 ≡ p = (==_iff x.0 p).0 b in
                      let w : get_elem? aux p ≡ some m =
                        subst (λ k. get_elem? aux k ≡ some m) q x.2 in
                      let w1 : some n ≡ some m = sym (leer_en-ok aux p n e) ∙ w in inl cc
                  | inr b ↦ inr (x.0, ground (arith, ==_iff x.0 p, x.1), x.2)
                ])
                (Borra-sigue (λ m. n ≡ m) (EnBloque aux p) d d2 a l h))
