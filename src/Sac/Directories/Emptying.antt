-- ===== src/Sac/Directories/Emptying.antt =====
-- What the removal of nodes and of their blocks keeps of the table (Sac-Server/operaciones.c).
use linuse_tp_os.Base.{
  ℕ, zero, suc, ◌+◌, ◌-◌, ◌≡◌, refl, sym, ap, ◌∙◌, subst, ◌≢◌, ◌⊎◌, inl, inr, ◌&&◌, some, List,
  ◌==◌, if◌then◌else◌, ==_iff, Bool-cases, en_arreglo, Logra, Logra->>=, Logra-resto, Logra-weaken,
  get_elem?, set, get_elem?-set_self, get_elem?-set_ne, get_elem?-lt,
}
use linuse_tp_os.Sac.Model.{Archivo, Disco}
use linuse_tp_os.Sac.Blocks.{leer_en}
use linuse_tp_os.Sac.Freeing.{
  limpiar_bit, borrar_datos, punteros_de, borrar_punteros, ultima_posicion, eliminar_nodos,
}

-- The node keeps its directory, and it is of the same kind or removed.
abbrev pub Resto : Archivo → Archivo → Type 0
Resto f g = (g.bloque_padre ≡ f.bloque_padre) × ((g.estado ≡ f.estado) ⊎ (g.estado ≡ 0))

abbrev pub Restos : Disco → Disco → Type 0
Restos d e =
    (i : ℕ) (f : Archivo)
    → get_elem? d.tabla i ≡ some f
    → (g : Archivo) × (get_elem? e.tabla i ≡ some g) × Resto f g

pub Restos-trans : (d e a : Disco) → Restos d e → Restos e a → Restos d a
Restos-trans d e a h k i f x =
    let (g, y, (p, q)) = h i f x in
    let (u, z, (p1, q1)) = k i g y in
    (
      u,
      z,
      (
        p1 ∙ p,
        elim q1 [ inr r ↦ inr r | inl r ↦ elim q [ inl s ↦ inl (r ∙ s) | inr s ↦ inr (r ∙ s) ] ],
      ),
    )

-- One node is written.
pub Restos-set :
    (d e : Disco) (i : ℕ) (f g : Archivo)
    → get_elem? d.tabla i ≡ some f
    → Resto f g
    → e.tabla ≡ set d.tabla i g
    → Restos d e
Restos-set d e i f g x r t j h y = elim (Bool-cases (i == j)) [
  | inl b ↦
      let p : i ≡ j = (==_iff i j).0 b in
      let z : some f ≡ some h = sym (subst (λ k. get_elem? d.tabla k ≡ some f) p x) ∙ y in
      let w : f ≡ h = cc in
      (
        g,
        ap (λ l. get_elem? l j) t
            ∙ subst (λ k. get_elem? (set d.tabla i g) k ≡ some g) p
                (get_elem?-set_self d.tabla i g (get_elem?-lt d.tabla i x)),
        subst (λ k. Resto k g) w r,
      )
  | inr b ↦
      let n : i ≢ j = λ p. let c = (==_iff i j).1 p in cc in
      (
        h,
        ap (λ l. get_elem? l j) t ∙ get_elem?-set_ne d.tabla {i = i} {j = j} g n ∙ y,
        (refl, inl refl),
      )
]

-- The table is as it was, and the node but for its blocks.
abbrev pub Conserva : Archivo → Disco → Archivo × Disco → Type 0
Conserva f d r =
    (r.0.estado ≡ f.estado) × (r.0.bloque_padre ≡ f.bloque_padre) × (r.1.tabla ≡ d.tabla)

limpiar_bit-tabla : (n : ℕ) (d : Disco) → Logra (λ e. e.tabla ≡ d.tabla) (limpiar_bit n d)
unfolding limpiar_bit
limpiar_bit-tabla n d =
    Logra-resto (λ (e : Disco). e.tabla ≡ d.tabla) (en_arreglo (get_elem? d.bitmap n)) _ λ b e. refl

borrar_datos-tabla :
    (aux : List ℕ) (n p : ℕ) (d : Disco) → Logra (λ e. e.tabla ≡ d.tabla) (borrar_datos aux n p d)
unfolding borrar_datos
borrar_datos-tabla aux n zero d = elim (Bool-cases (n == 0)) [ inl b ↦ rw b refl | inr b ↦ rw b tt ]
borrar_datos-tabla aux n (suc k) d =
    let Q = λ (e : Disco). e.tabla ≡ d.tabla in
    elim (Bool-cases (n == suc k)) [
      | inl b ↦ rw b refl
      | inr b ↦ rw b (
          Logra-resto Q (leer_en aux k) _ λ i e.
            Logra->>= Q Q (limpiar_bit i d) _ (limpiar_bit-tabla i d) λ d1 e1 t.
              let d2 = record d1 { bitmap_free_blocks = suc d1.bitmap_free_blocks } in
              Logra-weaken (λ (a : Disco). a.tabla ≡ d2.tabla) Q (borrar_datos aux n k d2)
                (borrar_datos-tabla aux n k d2) λ a h. h ∙ t)
    ]

borrar_punteros-Conserva :
    (modo p q i dato : ℕ) (f : Archivo) (d : Disco)
    → Logra (Conserva f d) (borrar_punteros modo p q i dato f d)
unfolding borrar_punteros
borrar_punteros-Conserva modo p q zero dato f d = (refl, refl, refl)
borrar_punteros-Conserva modo p q (suc i) dato f d =
    elim (Bool-cases (modo == 0 && (dato == suc q && i == p))) [
      | inl b ↦ rw b (refl, refl, refl)
      | inr b ↦ elim (Bool-cases (dato == 0)) [
        | inl c ↦ rw (b, c) (refl, refl, refl)
        | inr c ↦
            rw (b, c)
              (Logra-resto (Conserva f d) (leer_en f.bloques_indirectos i) _ λ n e.
                Logra-resto (Conserva f d) (punteros_de n d) _ λ aux e1.
                  Logra->>= (λ (a : Disco). a.tabla ≡ d.tabla) (Conserva f d)
                    (borrar_datos aux ((if i == p then q else 0) + (1 - modo)) dato d) _
                    (borrar_datos-tabla aux ((if i == p then q else 0) + (1 - modo)) dato d)
                    λ d1 e2 t. elim (Bool-cases (i + modo == p)) [
                      | inl g ↦ rw g (refl, refl, t)
                      | inr g ↦ rw g (
                          Logra->>= (λ (a : Disco). a.tabla ≡ d1.tabla) (Conserva f d)
                            (limpiar_bit n d1) _ (limpiar_bit-tabla n d1)
                            λ d2 e3 u.
                              let f1 = record f {
                                bloques_indirectos = set f.bloques_indirectos i 0;
                              } in
                              Logra-weaken (Conserva f1 d2) (Conserva f d)
                                (borrar_punteros modo p q i 1024 f1 d2)
                                (borrar_punteros-Conserva modo p q i 1024 f1 d2)
                                λ r h. (h.0, h.1, h.2 ∙ u ∙ t))
                    ])
      ]
    ]

pub eliminar_nodos-Conserva :
    (modo p q : ℕ) (f : Archivo) (d : Disco)
    → Logra (λ r. Conserva f d r.1) (eliminar_nodos modo p q f d)
unfolding eliminar_nodos
eliminar_nodos-Conserva modo p q f d =
    Logra->>= (Conserva f d) (λ (r : ℕ × (Archivo × Disco)). Conserva f d r.1)
      (borrar_punteros (if p == 0 && q == 0 then modo else 0) p q
        (ultima_posicion f.tamanio_archivo).0 (ultima_posicion f.tamanio_archivo).1 f d)
      _
      (borrar_punteros-Conserva (if p == 0 && q == 0 then modo else 0) p q
        (ultima_posicion f.tamanio_archivo).0 (ultima_posicion f.tamanio_archivo).1 f d)
      λ r e h. h
