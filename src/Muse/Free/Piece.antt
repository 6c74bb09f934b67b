-- ===== src/Muse/Free/Piece.antt =====
-- The piece that `musefree` of Memoria/muse.c frees.
use linuse_tp_os.Base.{
  ℕ, zero, suc, ◌+◌, ◌/◌, ◌<◌, ◌≡◌, refl, sym, subst, ◌⊎◌, inl, inr, Bool, true, some, List, [],
  ◌∷◌, arith, ltb, ◌==◌, if◌then◌else◌, Bool-cases, Option-cases, clave_nombre, clave_numero, ℤ,
  negsuc, ok, en_arreglo, Logra, Logra->>=, Logra-resto, Logra-desref, Logra-weaken, get_elem?, set,
  lookup,
}
use linuse_tp_os.Muse.Model.{Pagina, HeapLista, Segmento, Muse}
use linuse_tp_os.Muse.Heap.{
  en_tabla, Obra, segmento_en, con_segmento, posicion_pagina, obtener_indice_pagina,
}
use linuse_tp_os.Muse.Heap.Sites.{
  MismoSitio-trans, Escrito, Escrito-trans, con_segmento-Logra, SoloPaginas,
  posicion_pagina-SoloPaginas, posicion_pagina-sigue,
}
use linuse_tp_os.Muse.Free.{
  indice_que_contiene, fin_de_metadata, indice_de_metadata, escribir_metadata, marcar_libre,
  liberar_metadata, liberar_con_paginas, liberar_en, musefree,
}
use linuse_tp_os.Muse.Segments.{resta, segmento_de}

module _ (sg : Segmento) (o : Obra) (en : segmento_en o ≡ ok sg) where
  escribir_metadata-SoloPaginas :
      (h : HeapLista) (k : ℕ) → Logra (SoloPaginas sg o) (escribir_metadata h k o)
  unfolding escribir_metadata
  escribir_metadata-SoloPaginas h zero = tt
  escribir_metadata-SoloPaginas h (suc k) =
      let P = λ (r : Obra × ℕ). SoloPaginas sg o r.0 in
      let Q = SoloPaginas sg o in
      Logra->>= P Q (posicion_pagina k o) _ (posicion_pagina-SoloPaginas sg o.0 o.1 en k)
        λ (o1, p) x a.
          Logra->>= P Q (posicion_pagina k o1) _ (posicion_pagina-sigue sg o o1 k a) λ (o2, q) y b.
            elim (Bool-cases h.esta_partido) [
              | inl e ↦ rw e (
                  Logra->>= P Q (posicion_pagina (suc k) o2) _
                    (posicion_pagina-sigue sg o o2 (suc k) b) λ (o3, r) z c. c)
              | inr e ↦ rw e b
            ]

indice_de_metadata-halla :
    (tam direccion n i : ℕ) (hs : List HeapLista)
    → indice_de_metadata tam direccion n hs ≡ some i
    → (j : ℕ) × (h : HeapLista) × (i ≡ n + j)
      × (get_elem? hs j ≡ some h)
      × (fin_de_metadata tam h ≡ direccion)
unfolding indice_de_metadata
indice_de_metadata-halla tam direccion n i [] e = cc
indice_de_metadata-halla tam direccion n i (h ∷ hs) e =
    elim (Bool-cases (fin_de_metadata tam h == direccion)) [
      | inl p ↦
          let x : some n ≡ some i = rw p at e in
          let y : n ≡ i = cc in (0, h, omega arith, refl, ground arith)
      | inr p ↦
          let (j, g, a, b, c) = indice_de_metadata-halla tam direccion (suc n) i hs (rw p at e) in
          (suc j, g, omega arith, b, c)
    ]

-- One piece of the segment, whose data begins at the address, is free afterwards; of the rest of the
-- segment only its pages may be others.
abbrev pub Libre : ℕ → Segmento → Obra → Obra → Type 0
Libre direccion sg o o' =
    (i : ℕ) × (h : HeapLista) × (ps : List Pagina) × (get_elem? sg.metadatas i ≡ some h)
    × (fin_de_metadata (o.0).tam_pagina h ≡ direccion)
    × Escrito
        (record sg {
          tabla_paginas = ps;
          metadatas = set sg.metadatas i (record h { is_free = true });
        })
        o o'

liberar_metadata-Libre :
    (direccion k : ℕ) (sg : Segmento) (o : Obra)
    → segmento_en o ≡ ok sg
    → Logra (λ r. Libre direccion sg o r.0) (liberar_metadata direccion k o)
unfolding liberar_metadata marcar_libre
liberar_metadata-Libre direccion k sg o en =
    let Q = λ (r : Obra × ℤ). Libre direccion sg o r.0 in
    rw en (elim (Option-cases (indice_de_metadata (o.0).tam_pagina direccion 0 sg.metadatas)) [
      | inl n ↦ rw n tt
      | inr (i, e) ↦
          let (j, h, a, b, c) =
            indice_de_metadata-halla (o.0).tam_pagina direccion 0 i sg.metadatas e in
          let b' : get_elem? sg.metadatas i ≡ some h = let x : i ≡ j = omega (arith, a) in rw x b in
          let sg' : Segmento = record sg {
            metadatas = set sg.metadatas i (record h { is_free = true });
          } in
          rw (e, b')
            (Logra->>= (Escrito sg' o) Q (con_segmento sg' o) _ (con_segmento-Logra sg sg' o en)
              λ o1 x w.
                Logra->>= (SoloPaginas sg' o1) Q (escribir_metadata h k o1) _
                  (escribir_metadata-SoloPaginas sg' o1 w.0 h k)
                  λ o2 y (ps, v). (
                    i,
                    h,
                    ps,
                    b',
                    c,
                    Escrito-trans sg' (record sg' { tabla_paginas = ps }) o o1 o2 w v,
                  ))
    ])

-- A piece of the segment at an index of the process's table, whose data begins at the address, is free
-- afterwards; but for its pages the segment is as it was.
abbrev pub Liberada : ℕ → ℕ → ℕ → Segmento → Muse → Muse → Type 0
Liberada cliente j dir sg m m' =
    (i : ℕ) × (h : HeapLista) × (ps : List Pagina) × (get_elem? sg.metadatas i ≡ some h)
    × (fin_de_metadata m.tam_pagina h ≡ resta dir sg.base_logica)
    × (segmento_de cliente j m'
        ≡ ok (record sg {
          tabla_paginas = ps;
          metadatas = set sg.metadatas i (record h { is_free = true });
        }))

-- The answer is -1 and nothing changes, or a piece of such a segment is freed.
abbrev pub Responde : ℕ → ℕ → ℕ → Segmento → Muse → Muse × ℤ → Type 0
Responde cliente j dir sg m (m', z) =
    ((m' ≡ m) × (z ≡ negsuc 0)) ⊎ ((sg.es_comun ≡ true) × Liberada cliente j dir sg m m')

liberar_en-Responde :
    (cliente j dir : ℕ) (m : Muse) (sg : Segmento)
    → segmento_de cliente j m ≡ ok sg
    → Logra (Responde cliente j dir sg m) (liberar_en cliente j dir m)
unfolding liberar_en liberar_con_paginas segmento_en
liberar_en-Responde cliente j dir m sg en = rw en (elim (Bool-cases sg.es_comun) [
  | inr e ↦ subst rama (sym e) (inl (refl, refl))
  | inl e ↦ subst rama (sym e) (paginas e sg.tabla_paginas)
])
  where
    rama : Bool → Type 0
    rama b = Logra (Responde cliente j dir sg m) (
        if b
        then liberar_con_paginas sg.tabla_paginas (resta dir sg.base_logica) (m, en_tabla cliente j)
        else ok (m, negsuc 0))

    paginas :
        sg.es_comun ≡ true
        → (tabla : List Pagina)
        → Logra
            (Responde cliente j dir sg m)
            (liberar_con_paginas tabla (resta dir sg.base_logica) (m, en_tabla cliente j))
    paginas c [] = inl (refl, refl)
    paginas c (pg ∷ pgs) =
        let d = resta dir sg.base_logica in
        let Q = Responde cliente j dir sg m in
        let s = en_tabla cliente j in
        Logra-desref Q (get_elem? (pg ∷ pgs) (d / m.tam_pagina)) _ λ pagina x.
          Logra-resto Q (en_arreglo (obtener_indice_pagina (pg ∷ pgs) pagina)) _ λ k y.
            Logra->>= (λ (r : Obra × ℕ). SoloPaginas sg (m, s) r.0) Q
              (posicion_pagina (d / m.tam_pagina) (m, s)) _
              (posicion_pagina-SoloPaginas sg m s en (d / m.tam_pagina))
              λ (o, p) z (ps, (e, t, si)).
                Logra->>= (λ (r : Obra × ℤ). Libre d (record sg { tabla_paginas = ps }) o r.0) Q
                  (liberar_metadata d k o) _
                  (liberar_metadata-Libre d k (record sg { tabla_paginas = ps }) o e)
                  λ (o', q) w (i, h, qs, a, b, (v, u, ti)).
                    let sitio : o'.1 ≡ en_tabla cliente j = MismoSitio-trans s o.1 o'.1 si ti in
                    let fin : fin_de_metadata m.tam_pagina h ≡ d = rw t at b in
                    let v' =
                      subst
                        (λ x.
                          segmento_en (o'.0, x)
                          ≡ ok (record sg {
                            tabla_paginas = qs;
                            metadatas = set sg.metadatas i (record h { is_free = true });
                          }))
                        sitio v in
                    inr (c, (i, h, qs, a, fin, v'))

indice_que_contiene-lt :
    (j : ℕ) (ss : List Segmento) (dir k : ℕ)
    → indice_que_contiene j ss dir ≡ some k
    → (i : ℕ) × (s : Segmento) × (k ≡ j + i)
      × (get_elem? ss i ≡ some s)
      × (resta dir s.base_logica < s.tamanio)
unfolding indice_que_contiene
indice_que_contiene-lt j [] dir k e = cc
indice_que_contiene-lt j (s ∷ ss) dir k e =
    elim (Bool-cases (ltb (resta dir s.base_logica) s.tamanio)) [
      | inl p ↦
          let x : some j ≡ some k = rw p at e in
          let y : j ≡ k = cc in (0, s, omega arith, refl, ground arith)
      | inr p ↦
          let (i, t, a, b, c) = indice_que_contiene-lt (suc j) ss dir k (rw p at e) in
          (suc i, t, omega arith, b, c)
    ]

abbrev pub RespondeMusefree : ℕ → ℕ → Muse → Muse × ℤ → Type 0
RespondeMusefree cliente dir m (m', z) =
    ((m' ≡ m) × (z ≡ negsuc 0))
    ⊎ ((j : ℕ) × (sg : Segmento) × (segmento_de cliente j m ≡ ok sg)
        × (resta dir sg.base_logica < sg.tamanio)
        × (sg.es_comun ≡ true)
        × Liberada cliente j dir sg m m')

-- Where `musefree` ends, it answers -1 and has changed nothing, or in a segment of the process, which is
-- not a mapped one and which the address lies in, a piece whose data begins at the address is free
-- afterwards, and the segment is otherwise as it was but for its pages.
pub musefree-Responde :
    (cliente dir : ℕ) (m : Muse) → Logra (RespondeMusefree cliente dir m) (musefree cliente dir m)
unfolding musefree
musefree-Responde cliente dir m = elim (Option-cases (lookup cliente m.tablas_segmentos)) [
  | inl n ↦ rw (n, musefree) (inl (refl, refl))
  | inr (ss, v) ↦ elim (Option-cases (indice_que_contiene 0 ss dir)) [
    | inl n ↦ rw (v, musefree) (rw n (inl (refl, refl)))
    | inr (j, n) ↦
        let (i, sg, a, b, c) = indice_que_contiene-lt 0 ss dir j n in
        let b' : get_elem? ss j ≡ some sg = let x : j ≡ i = omega (arith, a) in rw x b in
        let en : segmento_de cliente j m ≡ ok sg = unfold segmento_de in rw (v, b') in
        rw (v, musefree)
          (rw n (
            Logra-weaken (Responde cliente j dir sg m) (RespondeMusefree cliente dir m)
              (liberar_en cliente j dir m) (liberar_en-Responde cliente j dir m sg en)
              λ r p. casos j sg c en r p))
  ]
]
  where
    casos :
        (j : ℕ) (sg : Segmento)
        → resta dir sg.base_logica < sg.tamanio
        → segmento_de cliente j m ≡ ok sg
        → (r : Muse × ℤ) → Responde cliente j dir sg m r
        → RespondeMusefree cliente dir m r
    casos j sg c en r (inl p) = inl p
    casos j sg c en r (inr (p, q)) = inr (j, sg, en, c, p, q)
