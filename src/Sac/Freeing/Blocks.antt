-- ===== src/Sac/Freeing/Blocks.antt =====
-- The blocks of a file, and what `eliminarNodos` frees of them (Sac-Server/estructuras.c).
use linuse_tp_os.Base.{
  ℕ, zero, suc, ◌+◌, ◌-◌, ◌*◌, ◌%◌, ◌^◌, ◌≤◌, ◌<◌, ◌≡◌, refl, sym, ap, ◌∙◌, subst, ◌≢◌, ◌⊎◌, inl,
  inr, false, some, List, arith, ◌==◌, if◌then◌else◌, ==_iff, Bool-cases, clave_nombre,
  clave_numero, Logra, Logra->>=, Logra-resto, Logra-ambos, Logra-weaken, get_elem?, set,
  get_elem?-set_ne, lookup,
}
use linuse_tp_os.Sac.Model.{Archivo, Disco}
use linuse_tp_os.Sac.Freeing.{
  limpiar_bit, borrar_datos, punteros_de, borrar_punteros, posicion_siguiente, ultima_posicion,
  eliminar_nodos,
}
use linuse_tp_os.Sac.Blocks.{leer_en}
use linuse_tp_os.Sac.Freeing.Count.{
  Libera, hasta, hasta-1024, posicion-en_rango, bloques_de, ultima_posicion-cuenta,
  eliminar_nodos-Libera,
}
use linuse_tp_os.Sac.Freeing.Bits.{
  Libre, Borra, Borra-sigue, Borra-cambia, limpiar_bit-Borra, leer_en-ok, punteros_de-ok, EnBloque,
  borrar_datos-Borra,
}

-- The blocks of a file of `t` blocks of data: those that its blocks of pointers have at the positions
-- below `t`, of 1024 in each, and the blocks of pointers that have such a position.
abbrev pub DeArchivo : ℕ → Archivo → Disco → ℕ → Type 0
DeArchivo t f d n =
    (j : ℕ) × (k : ℕ) × (p : ℕ) × (ps : List ℕ) × (k < 1024)
    × (k + 1024 * j < t)
    × (get_elem? f.bloques_indirectos j ≡ some p)
    × (lookup p d.bloques_de_punteros ≡ some ps)
    × ((n ≡ p) ⊎ (get_elem? ps k ≡ some n))

-- The blocks below the position of the loop: those of the block of pointers it is at, this block, and
-- those of the rest, where it is no longer in the file.
module _ (i dato : ℕ) (f : Archivo) (d d2 : Disco) (n : ℕ) (aux : List ℕ) (bajo : dato ≤ 1024)
    (alguno : 0 < dato) (en_i : get_elem? f.bloques_indirectos i ≡ some n)
    (es_aux : lookup n d.bloques_de_punteros ≡ some aux)
    (iguales_punteros : d2.bloques_de_punteros ≡ d.bloques_de_punteros) where
  abbrev sin_i : Archivo
  sin_i = record f { bloques_indirectos = set f.bloques_indirectos i 0 }

  abbrev Partes : ℕ → Type 0
  Partes m = (EnBloque aux dato m ⊎ (n ≡ m)) ⊎ DeArchivo (1024 * i) sin_i d2 m

  junta : (m : ℕ) → Partes m → DeArchivo (dato + 1024 * i) f d m
  junta m (inl (inl (k, u, v))) =
      (i, k, n, aux, omega (arith, u, bajo), omega (arith, u), en_i, es_aux, inr v)
  junta m (inl (inr q)) =
      (i, 0, n, aux, omega arith, omega (arith, alguno), en_i, es_aux, inl (sym q))
  junta m (inr (j, k, p, ps, u, v, x, y, z)) =
      let c : i ≢ j = λ q. omega (arith, q, v) in
      (
        j,
        k,
        p,
        ps,
        u,
        omega (arith, v),
        sym (get_elem?-set_ne f.bloques_indirectos {i = i} {j = j} 0 c) ∙ x,
        ap (λ l. lookup p l) (sym iguales_punteros) ∙ y,
        z,
      )

  separa : (m : ℕ) → DeArchivo (dato + 1024 * i) f d m → Partes m
  separa m (j, k, p, ps, u, v, x, y, z) = elim (Bool-cases (i == j)) [
    | inl b ↦
        let q : j ≡ i = sym ((==_iff i j).0 b) in
        let x1 : some p ≡ some n =
          sym (subst (λ h. get_elem? f.bloques_indirectos h ≡ some p) q x) ∙ en_i in
        let p1 : p ≡ n = cc in
        let y1 : some ps ≡ some aux =
          sym (subst (λ h. lookup h d.bloques_de_punteros ≡ some ps) p1 y) ∙ es_aux in
        let p2 : ps ≡ aux = cc in
        elim z [
          | inl r ↦ inl (inr (sym (r ∙ p1)))
          | inr r ↦ inl (inl (k, omega (arith, v, q), subst (λ l. get_elem? l k ≡ some m) p2 r))
        ]
    | inr b ↦
        let c : i ≢ j = λ q. ground (arith, ==_iff i j) in
        inr (
          j,
          k,
          p,
          ps,
          u,
          omega (arith, v, bajo, u, c),
          get_elem?-set_ne f.bloques_indirectos {i = i} {j = j} 0 c ∙ x,
          ap (λ l. lookup p l) iguales_punteros ∙ y,
          z,
        )
  ]

DeArchivo-vacio : (f : Archivo) (d : Disco) (m : ℕ) → DeArchivo 0 f d m → ⊥
DeArchivo-vacio f d m (j, k, p, ps, u, v, x, y, z) = omega (arith, v)

borrar_punteros-Borra :
    (i dato : ℕ) (f : Archivo) (d : Disco)
    → (dato == 0) ≡ false
    → dato ≤ 1024
    → Logra (λ r. Borra (DeArchivo (hasta i dato) f d) d r.1) (borrar_punteros 1 0 0 i dato f d)
unfolding borrar_punteros
borrar_punteros-Borra zero dato f d p l =
    (λ n x. absurd (DeArchivo-vacio f d n x), λ n. inl refl, refl)
borrar_punteros-Borra (suc i) dato f d p l =
    let cota : (if i == 0 then 0 else 0) + (1 - 1) ≡ 0 = ground arith in
    let sigue : (i + 1 == 0) ≡ false = ground arith in
    let alguno : 0 < dato = ground arith in
    let Q = λ (r : Archivo × Disco). Borra (DeArchivo (dato + 1024 * i) f d) d r.1 in
    rw (p, cota)
      (Logra-resto Q (leer_en f.bloques_indirectos i) _ λ n e.
        Logra-resto Q (punteros_de n d) _ λ aux g.
          Logra->>= (Borra (EnBloque aux dato) d) Q (borrar_datos aux 0 dato d) _
            (borrar_datos-Borra aux dato d)
            λ d1 m b. rw sigue (
              Logra->>= (Borra (λ h. n ≡ h) d1) Q (limpiar_bit n d1) _ (limpiar_bit-Borra n d1)
                λ d2 m2 b2.
                  let c = Borra-sigue (EnBloque aux dato) (λ h. n ≡ h) d d1 d2 b b2 in
                  let f1 = record f { bloques_indirectos = set f.bloques_indirectos i 0 } in
                  let en_i = leer_en-ok f.bloques_indirectos i n e in
                  let es_aux = punteros_de-ok n d aux g in
                  Logra-weaken
                    (λ (r : Archivo × Disco). Borra (DeArchivo (hasta i 1024) f1 d2) d2 r.1) Q
                    (borrar_punteros 1 0 0 i 1024 f1 d2)
                    (borrar_punteros-Borra i 1024 f1 d2 refl (omega arith))
                    λ r h.
                      let h' = subst (λ t. Borra (DeArchivo t f1 d2) d2 r.1) (hasta-1024 i) h in
                      Borra-cambia (Partes i dato f d d2 n aux l alguno en_i es_aux c.2)
                        (DeArchivo (dato + 1024 * i) f d) d r.1
                        (junta i dato f d d2 n aux l alguno en_i es_aux c.2)
                        (separa i dato f d d2 n aux l alguno en_i es_aux c.2)
                        (Borra-sigue (λ h. EnBloque aux dato h ⊎ (n ≡ h))
                          (DeArchivo (1024 * i) f1 d2) d d2 r.1 c h')))

ultima_posicion-cabe : (s : ℕ) → s < 2 ^ 31 → (ultima_posicion s).1 ≤ 1024
unfolding ultima_posicion posicion_siguiente
ultima_posicion-cabe s h = rw (posicion-en_rango s h) (elim (Bool-cases (s % (4096 * 1024) == 0)) [
  | inl e ↦ rw e (omega arith)
  | inr e ↦ elim (Bool-cases (s % 4096 == 0)) [
    | inl g ↦ rw (e, g) (omega arith)
    | inr g ↦ rw (e, g) (omega arith)
  ]
])

-- The blocks of the file are free in the bitmap, and no other bit changed; the count of free blocks has
-- grown by the blocks of data.
pub record Liberado (f : Archivo) (d e : Disco) : Type 0 where
  pub cuenta : e.bitmap_free_blocks ≡ d.bitmap_free_blocks + bloques_de f.tamanio_archivo
  pub libres : (n : ℕ) → DeArchivo (bloques_de f.tamanio_archivo) f d n → Libre n e
  pub otros :
      (n : ℕ)
      → (get_elem? e.bitmap n ≡ get_elem? d.bitmap n)
        ⊎ DeArchivo (bloques_de f.tamanio_archivo) f d n

eliminar_nodos-Borra :
    (f : Archivo) (d : Disco)
    → f.tamanio_archivo < 2 ^ 31
    → Logra
        (λ r. Borra (DeArchivo (bloques_de f.tamanio_archivo) f d) d r.1.1)
        (eliminar_nodos 1 0 0 f d)
unfolding eliminar_nodos
eliminar_nodos-Borra f d h =
    let (p, c) = ultima_posicion-cuenta f.tamanio_archivo h in
    let u = ultima_posicion f.tamanio_archivo in
    Logra->>= (λ (r : Archivo × Disco). Borra (DeArchivo (hasta u.0 u.1) f d) d r.1)
      (λ (r : ℕ × (Archivo × Disco)). Borra (DeArchivo (bloques_de f.tamanio_archivo) f d) d r.1.1)
      (borrar_punteros 1 0 0 u.0 u.1 f d) _
      (borrar_punteros-Borra u.0 u.1 f d p (ultima_posicion-cabe f.tamanio_archivo h))
      λ r e l. subst (λ t. Borra (DeArchivo t f d) d r.1) c l

-- Where `eliminarNodos` ends with DELETE_MODE and nothing to be kept, for a size below 2 ^ 31: the blocks
-- of data that the size of the file needs, 4096 bytes in each and the last one in part, are free in the
-- bitmap, and so are the blocks of pointers that name them; no other bit has changed; and the count of
-- free blocks has grown by the number of the blocks of data. An empty file has no such block.
pub eliminar_nodos-Liberado :
    (f : Archivo) (d : Disco)
    → f.tamanio_archivo < 2 ^ 31
    → Logra (λ r. Liberado f d r.1.1) (eliminar_nodos 1 0 0 f d)
eliminar_nodos-Liberado f d h =
    Logra-ambos (λ (r : ℕ × (Archivo × Disco)). Libera (bloques_de f.tamanio_archivo) d r.1.1)
      (λ (r : ℕ × (Archivo × Disco)). Borra (DeArchivo (bloques_de f.tamanio_archivo) f d) d r.1.1)
      (λ (r : ℕ × (Archivo × Disco)). Liberado f d r.1.1) (eliminar_nodos 1 0 0 f d)
      (eliminar_nodos-Libera f d h) (eliminar_nodos-Borra f d h)
      λ r c b. record { cuenta = c; libres = b.0; otros = b.1 }
