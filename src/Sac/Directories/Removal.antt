-- ===== src/Sac/Directories/Removal.antt =====
-- What is left in a directory that was removed (Sac-Server/operaciones.c).
use linuse_tp_os.Base.{
  ℕ, zero, suc, ◌-◌, ◌≤◌, ◌<◌, ◌≡◌, refl, sym, ap, ◌∙◌, subst, ◌⊎◌, inl, inr, some, arith, ◌==◌,
  ==_iff, Bool-cases, Option-cases, Resultado, Logra, Logra->>=, Logra-resto, Logra-weaken,
  get_elem?, set, get_elem?-set_self, get_elem?-lt,
}
use linuse_tp_os.Sac.Model.{Archivo, Disco}
use linuse_tp_os.Sac.Nodes.{indice_de, es_hijo}
use linuse_tp_os.Sac.Freeing.{eliminar_nodos}
use linuse_tp_os.Sac.Directories.{
  borrar_nodo, eliminar_archivo, eliminar_hijo, eliminar_hijos, eliminar_recursivamente,
}
use linuse_tp_os.Sac.Directories.Emptying.{
  Restos, Restos-trans, Restos-set, Conserva, eliminar_nodos-Conserva,
}

-- The node at an index, which is there, is removed.
abbrev pub NodoBorrado : ℕ → Disco → Type 0
NodoBorrado i e = (f : Archivo) × (get_elem? e.tabla i ≡ some f) × (f.estado ≡ 0)

-- OCUPADO or DIRECTORIO.
abbrev pub EnUso : Archivo → Type 0
EnUso f = (f.estado ≡ 1) ⊎ (f.estado ≡ 2)

-- The node at an index, which is there, is not one in use in the directory.
abbrev pub NoEsta : ℕ → ℕ → Disco → Type 0
NoEsta mi i e = (f : Archivo) × (get_elem? e.tabla i ≡ some f) × (f.bloque_padre ≡ mi → EnUso f → ⊥)

pub NodoBorrado-NoEsta : (mi i : ℕ) (e : Disco) → NodoBorrado i e → NoEsta mi i e
NodoBorrado-NoEsta mi i e (f, x, z) =
    (f, x, λ p u. elim u [ inl a ↦ omega arith | inr a ↦ omega arith ])

pub NoEsta-Restos : (mi i : ℕ) (d e : Disco) → NoEsta mi i d → Restos d e → NoEsta mi i e
NoEsta-Restos mi i d e (f, x, n) h =
    let (g, y, r) = h i f x in
    (
      g,
      y,
      λ p u. elim r.1 [
        | inr z ↦ elim u [ inl a ↦ omega arith | inr a ↦ omega arith ]
        | inl z ↦ n (sym r.0 ∙ p) (elim u [ inl a ↦ inl (sym z ∙ a) | inr a ↦ inr (sym z ∙ a) ])
      ],
    )

pub borrar_nodo-NodoBorrado :
    (i : ℕ) (d : Disco) → Logra (λ e. Restos d e × NodoBorrado i e) (borrar_nodo i d)
unfolding borrar_nodo
borrar_nodo-NodoBorrado i d = elim (Option-cases (get_elem? d.tabla i)) [
  | inl x ↦ rw x tt
  | inr (f, x) ↦
      let g = record f { estado = 0 } in
      rw x (
        Restos-set d (record d { tabla = set d.tabla i g }) i f g x (refl, inr refl) refl,
        (g, get_elem?-set_self d.tabla i g (get_elem?-lt d.tabla i x), refl),
      )
]

eliminar_archivo-NodoBorrado :
    (i : ℕ) (d : Disco) → Logra (λ e. Restos d e × NodoBorrado i e) (eliminar_archivo i d)
unfolding eliminar_archivo
eliminar_archivo-NodoBorrado i d =
    let Q = λ (e : Disco). Restos d e × NodoBorrado i e in
    Logra-resto Q (indice_de i) _ λ j y. elim (Option-cases (get_elem? d.tabla j)) [
      | inl x ↦ rw x tt
      | inr (f, x) ↦ rw x (
          Logra->>= (λ (r : ℕ × (Archivo × Disco)). Conserva f d r.1) Q (eliminar_nodos 1 0 0 f d) _
            (eliminar_nodos-Conserva 1 0 0 f d)
            λ r z c.
              let d2 = record r.1.1 { tabla = set r.1.1.tabla j r.1.0 } in
              let k = Restos-set d d2 j f r.1.0 x (c.1, inl c.0) (ap (λ t. set t j r.1.0) c.2) in
              Logra-weaken (λ (e : Disco). Restos d2 e × NodoBorrado i e) Q (borrar_nodo i d2)
                (borrar_nodo-NodoBorrado i d2) λ e h. (Restos-trans d d2 e k h.0, h.1))
    ]

Restos-refl : (d : Disco) → Restos d d
Restos-refl d i f x = (f, x, (refl, inl refl))

module _ (baja : ℕ → Disco → Resultado Disco)
    (baja-Restos : (n : ℕ) (d : Disco) → Logra (Restos d) (baja n d)) where
  eliminar_hijo-NoEsta :
      (mi i : ℕ) (d : Disco) → Logra (λ e. Restos d e × NoEsta mi i e) (eliminar_hijo baja mi i d)
  unfolding eliminar_hijo
  eliminar_hijo-NoEsta mi i d =
      let Q = λ (e : Disco). Restos d e × NoEsta mi i e in
      elim (Option-cases (get_elem? d.tabla i)) [
        | inl x ↦ rw x tt
        | inr (f, x) ↦ elim (Bool-cases (es_hijo mi f)) [
          | inr b ↦
              rw (x, b)
                (
                  Restos-refl d,
                  (f, x, λ p u. elim u [ inl a ↦ ground arith | inr a ↦ ground arith ]),
                )
          | inl b ↦ elim (Bool-cases (f.estado == 1)) [
            | inl c ↦
                rw (x, b, c)
                  (Logra-weaken (λ (e : Disco). Restos d e × NodoBorrado i e) Q
                    (eliminar_archivo i d) (eliminar_archivo-NodoBorrado i d)
                    λ e h. (h.0, NodoBorrado-NoEsta mi i e h.1))
            | inr c ↦ elim (Bool-cases (f.estado == 2)) [
              | inl g ↦
                  rw (x, b, c, g)
                    (Logra->>= (Restos d) Q (baja (suc i) d) _ (baja-Restos (suc i) d) λ d1 y k.
                      Logra-weaken (λ (e : Disco). Restos d1 e × NodoBorrado i e) Q
                        (borrar_nodo i d1) (borrar_nodo-NodoBorrado i d1)
                        λ e h. (Restos-trans d d1 e k h.0, NodoBorrado-NoEsta mi i e h.1))
              | inr g ↦
                  rw (x, b, c, g)
                    (
                      Restos-refl d,
                      (f, x, λ p u. elim u [ inl a ↦ ground arith | inr a ↦ ground arith ]),
                    )
            ]
          ]
        ]
      ]

  -- From the index `j` on, no node in use is in the directory.
  eliminar_hijos-NoEsta :
      (mi k : ℕ) (d : Disco)
      → k ≤ 1024
      → Logra
          (λ e. Restos d e × ((i : ℕ) → 1024 - k ≤ i → i < 1024 → NoEsta mi i e))
          (eliminar_hijos baja mi k d)
  unfolding eliminar_hijos
  eliminar_hijos-NoEsta mi zero d l = (Restos-refl d, λ i a b. absurd (omega arith))
  eliminar_hijos-NoEsta mi (suc k) d l =
      let Q = λ (e : Disco). Restos d e × ((i : ℕ) → 1024 - suc k ≤ i → i < 1024 → NoEsta mi i e) in
      Logra->>= (λ (e : Disco). Restos d e × NoEsta mi (1024 - suc k) e) Q
        (eliminar_hijo baja mi (1024 - suc k) d) _ (eliminar_hijo-NoEsta mi (1024 - suc k) d)
        λ d1 y h.
          Logra-weaken
            (λ (e : Disco). Restos d1 e × ((i : ℕ) → 1024 - k ≤ i → i < 1024 → NoEsta mi i e)) Q
            (eliminar_hijos baja mi k d1) (eliminar_hijos-NoEsta mi k d1 (omega arith))
            λ e g. (
              Restos-trans d d1 e h.0 g.0,
              λ i a b. elim (Bool-cases (i == 1024 - suc k)) [
                | inl c ↦
                    let z : 1024 - suc k ≡ i = sym ((==_iff i (1024 - suc k)).0 c) in
                    subst (λ t. NoEsta mi t e) z (NoEsta-Restos mi (1024 - suc k) d1 e h.1 g.0)
                | inr c ↦ g.1 i (ground arith) b
              ],
            )

pub eliminar_recursivamente-NoEsta :
    (n mi : ℕ) (d : Disco)
    → Logra
        (λ e. Restos d e × ((i : ℕ) → i < 1024 → NoEsta mi i e))
        (eliminar_recursivamente n mi d)
unfolding eliminar_recursivamente
eliminar_recursivamente-NoEsta zero mi d = tt
eliminar_recursivamente-NoEsta (suc n) mi d =
    Logra-weaken
      (λ (e : Disco). Restos d e × ((i : ℕ) → 1024 - 1024 ≤ i → i < 1024 → NoEsta mi i e))
      (λ (e : Disco). Restos d e × ((i : ℕ) → i < 1024 → NoEsta mi i e))
      (eliminar_hijos (eliminar_recursivamente n) mi 1024 d)
      (eliminar_hijos-NoEsta (eliminar_recursivamente n)
        (λ m a.
          Logra-weaken (λ (e : Disco). Restos a e × ((i : ℕ) → i < 1024 → NoEsta m i e)) (Restos a)
            (eliminar_recursivamente n m a) (eliminar_recursivamente-NoEsta n m a) λ e h. h.0)
        mi 1024 d (omega arith))
      λ e h. (h.0, λ i b. h.1 i (omega arith) b)
