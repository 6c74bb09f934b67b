-- ===== src/Muse/Heap/Measures.antt =====
-- How the segment that `crearSegmento` builds grows (Memoria/muse.c): its number of pages, its size
-- and its pieces after each step.
use linuse_tp_os.Base.{
  ℕ, ◌+◌, ◌%◌, ◌^◌, ◌≡◌, refl, ap, ◌∙◌, inl, inr, Bool, true, false, List, [], ◌∷◌, ◌++◌, arith,
  ◌==◌, if◌then◌else◌, Bool-cases, Option-cases, ok, en_arreglo, Logra, Logra->>=, Logra-resto,
  Logra-desref, length, get_elem?, length-append, length-set,
}
use linuse_tp_os.Muse.Model.{Pagina, HeapLista, Muse}
use linuse_tp_os.Muse.Heap.{
  suelto, en_tabla, Obra, segmento_en, con_segmento, traer_pagina, presentar, posicion_pagina,
  crecer, marcar_tomado, pagina_nueva, agregar_pagina, heap_en, usar_frame_de, agregar_metadata,
  agregar_segunda_pagina, ubicar_metadata,
}
use linuse_tp_os.Muse.Swap.{asignar_un_frame}
use linuse_tp_os.Muse.Swap.Sizes.{asignar_un_frame-tam}
use linuse_tp_os.Muse.Frames.{buscar_frame_libre}

marcar_tomado-tam :
    (i : ℕ) (m : Muse) → Logra (λ m'. m'.tam_pagina ≡ m.tam_pagina) (marcar_tomado i m)
unfolding marcar_tomado
marcar_tomado-tam i m =
    Logra-desref (λ m'. m'.tam_pagina ≡ m.tam_pagina) (get_elem? m.bitmap_frames i) _ λ f e. refl

module _ (tam : ℕ) where
  -- The segment is in no table, and has so many pages, that size and these pieces.
  abbrev pub Mide : ℕ → ℕ → List HeapLista → Obra → Type 0
  Mide n bytes hs (m, suelto sg) =
      (m.tam_pagina ≡ tam)
      × (length sg.tabla_paginas ≡ n)
      × (sg.tamanio ≡ bytes)
      × (sg.metadatas ≡ hs)
  Mide n bytes hs (m, en_tabla c j) = ⊥

  module _ (n bytes : ℕ) (hs : List HeapLista) where
    -- One page more, wherever its frame comes from.
    pub agregar_pagina-Mide :
        (o : Obra) → Mide n bytes hs o → Logra (Mide (n + 1) bytes hs) (agregar_pagina o)
    unfolding agregar_pagina segmento_en con_segmento
    agregar_pagina-Mide (m, en_tabla c j) h = absurd h
    agregar_pagina-Mide (m, suelto sg) (t, p, b, q) =
        let Q = Mide (n + 1) bytes hs in
        Logra->>= (λ (r : Muse × ℕ). r.0.tam_pagina ≡ m.tam_pagina) Q (asignar_un_frame m) _
          (asignar_un_frame-tam m)
          λ (m1, i) x u.
            Logra->>= (λ m2. m2.tam_pagina ≡ m1.tam_pagina) Q (marcar_tomado i m1) _
              (marcar_tomado-tam i m1)
              λ m2 y v. (
                v ∙ u ∙ t,
                omega (arith, length-append {0} sg.tabla_paginas (pagina_nueva i ∷ []), p),
                b,
                q,
              )

    pub crecer-Mide :
        (mas : ℕ) (o : Obra)
        → Mide n bytes hs o
        → Logra (Mide n ((bytes + mas) % 2 ^ 32) hs) (crecer mas o)
    unfolding crecer segmento_en con_segmento
    crecer-Mide mas (m, en_tabla c j) h = absurd h
    crecer-Mide mas (m, suelto sg) (t, p, b, q) = (t, p, ap (λ (x : ℕ). (x + mas) % 2 ^ 32) b, q)

    pub usar_frame_de-Mide :
        (k : ℕ) (o : Obra) → Mide n bytes hs o → Logra (Mide n bytes hs) (usar_frame_de k o)
    unfolding usar_frame_de segmento_en
    usar_frame_de-Mide k (m, en_tabla c j) h = absurd h
    usar_frame_de-Mide k (m, suelto sg) h =
        let Q = Mide n bytes hs in
        Logra-desref Q (get_elem? sg.tabla_paginas k) _ λ pg x.
          Logra-desref Q pg.numero_frame _
            λ i y. Logra-desref Q (get_elem? m.bitmap_frames i) _ λ f z. h

    traer_pagina-Mide :
        (k : ℕ) (pg : Pagina) (bit : ℕ) (o : Obra)
        → Mide n bytes hs o
        → Logra (λ r. Mide n bytes hs r.0) (traer_pagina k pg bit o)
    unfolding traer_pagina segmento_en con_segmento
    traer_pagina-Mide k pg bit (m, en_tabla c j) h = absurd h
    traer_pagina-Mide k pg bit (m, suelto sg) (t, p, b, q) =
        Logra-resto (λ (r : Obra × Pagina). Mide n bytes hs r.0)
          (en_arreglo (buscar_frame_libre m.bitmap_frames)) _
          λ i x. (t, length-set sg.tabla_paginas k _ ∙ p, b, q)

    presentar-Mide :
        (k : ℕ) (pg : Pagina) (o : Obra)
        → Mide n bytes hs o
        → Logra (λ r. Mide n bytes hs r.0) (presentar k pg o)
    unfolding presentar
    presentar-Mide k pg o h = elim (Bool-cases (pg.presencia == 0)) [
      | inl p ↦ elim (Option-cases pg.indice_swap) [
        | inl e ↦ rw (p, e) h
        | inr (bit, e) ↦ rw (p, e) (traer_pagina-Mide k pg bit o h)
      ]
      | inr p ↦ rw p h
    ]

    pub posicion_pagina-Mide :
        (k : ℕ) (o : Obra)
        → Mide n bytes hs o
        → Logra (λ r. Mide n bytes hs r.0) (posicion_pagina k o)
    unfolding posicion_pagina segmento_en
    posicion_pagina-Mide k (m, en_tabla c j) h = absurd h
    posicion_pagina-Mide k (m, suelto sg) h =
        let Q = λ (r : Obra × ℕ). Mide n bytes hs r.0 in
        Logra-desref Q (get_elem? sg.tabla_paginas k) _ λ pg x.
          Logra->>= (λ (r : Obra × Pagina). Mide n bytes hs r.0) Q (presentar k pg (m, suelto sg)) _
            (presentar-Mide k pg (m, suelto sg) h)
            λ (o, pg') y p. Logra-resto Q (en_arreglo pg'.numero_frame) _ λ i z. p

    pub agregar_metadata-Mide :
        (h : HeapLista) (o : Obra)
        → Mide n bytes hs o
        → Logra (Mide n bytes (hs ++ h ∷ [])) (agregar_metadata h o)
    unfolding agregar_metadata segmento_en con_segmento
    agregar_metadata-Mide h (m, en_tabla c j) e = absurd e
    agregar_metadata-Mide h (m, suelto sg) (t, p, b, q) = (t, p, b, ap (λ xs. xs ++ h ∷ []) q)

  pub Mide-tam :
      (n bytes : ℕ) (hs : List HeapLista) (o : Obra) → Mide n bytes hs o → o.0.tam_pagina ≡ tam
  Mide-tam n bytes hs (m, suelto sg) h = h.0
  Mide-tam n bytes hs (m, en_tabla c j) h = absurd h

  -- The second page of a split metadata.
  pub agregar_segunda_pagina-Mide :
      (n bytes : ℕ) (hs : List HeapLista) (k : ℕ) (o : Obra)
      → Mide n bytes hs o
      → Logra (Mide (n + 1) ((bytes + tam) % 2 ^ 32) hs) (agregar_segunda_pagina k o)
  unfolding agregar_segunda_pagina
  agregar_segunda_pagina-Mide n bytes hs k o h =
      let b = (bytes + tam) % 2 ^ 32 in
      let Q = Mide (n + 1) b hs in
      let R = λ (r : Obra × ℕ). Q r.0 in
      Logra-resto Q (segmento_en o) _ λ sg x.
        Logra->>= (Mide (n + 1) bytes hs) Q (agregar_pagina o) _
          (agregar_pagina-Mide n bytes hs o h)
          λ o1 y h1.
            Logra->>= Q Q (crecer (o.0).tam_pagina o1) _
              (rw (Mide-tam n bytes hs o h) (crecer-Mide (n + 1) bytes hs tam o1 h1))
              λ o2 z h2.
                Logra->>= R Q (posicion_pagina (length sg.tabla_paginas) o2) _
                  (posicion_pagina-Mide (n + 1) b hs (length sg.tabla_paginas) o2 h2)
                  λ (o3, i) w h3.
                    Logra->>= R Q (posicion_pagina k o3) _
                      (posicion_pagina-Mide (n + 1) b hs k o3 h3) λ (o4, j) v h4. h4

  -- A metadata is a piece more, and where it is split a page more.
  abbrev pub TrasPieza : ℕ → ℕ → List HeapLista → Bool → Obra → Type 0
  TrasPieza n bytes hs true o = Mide (n + 1) ((bytes + tam) % 2 ^ 32) hs o
  TrasPieza n bytes hs false o = Mide n bytes hs o

  segunda-TrasPieza :
      (n bytes : ℕ) (hs : List HeapLista) (partida : Bool) (k : ℕ) (o : Obra)
      → Mide n bytes hs o
      → Logra (TrasPieza n bytes hs partida) (if partida then agregar_segunda_pagina k o else ok o)
  segunda-TrasPieza n bytes hs true k o h = agregar_segunda_pagina-Mide n bytes hs k o h
  segunda-TrasPieza n bytes hs false k o h = h

  abbrev pub Ubicada : ℕ → ℕ → List HeapLista → HeapLista → Obra × Bool → Type 0
  Ubicada n bytes hs h (o, partida) =
      (partida ≡ h.esta_partido) × TrasPieza n bytes (hs ++ h ∷ []) h.esta_partido o

  pub ubicar_metadata-Ubicada :
      (n bytes : ℕ) (hs : List HeapLista) (direccion : ℕ) (libre : Bool) (size k : ℕ) (o : Obra)
      → Mide n bytes hs o
      → Logra
          (Ubicada n bytes hs (heap_en (o.0).tam_pagina direccion libre size))
          (ubicar_metadata direccion libre size k o)
  unfolding ubicar_metadata
  ubicar_metadata-Ubicada n bytes hs direccion libre size k o e =
      let h = heap_en (o.0).tam_pagina direccion libre size in
      let Q = Ubicada n bytes hs h in
      Logra->>= (Mide n bytes hs) Q (usar_frame_de k o) _ (usar_frame_de-Mide n bytes hs k o e)
        λ o1 x e1.
          Logra->>= (λ (r : Obra × ℕ). Mide n bytes hs r.0) Q (posicion_pagina k o1) _
            (posicion_pagina-Mide n bytes hs k o1 e1)
            λ (o2, p) y e2.
              Logra->>= (Mide n bytes (hs ++ h ∷ [])) Q (agregar_metadata h o2) _
                (agregar_metadata-Mide n bytes hs h o2 e2)
                λ o3 z e3.
                  Logra->>= (TrasPieza n bytes (hs ++ h ∷ []) h.esta_partido) Q
                    (if h.esta_partido then agregar_segunda_pagina k o3 else ok o3) _
                    (segunda-TrasPieza n bytes (hs ++ h ∷ []) h.esta_partido k o3 e3)
                    λ o4 w e4. (refl, e4)
