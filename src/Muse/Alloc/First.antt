-- ===== src/Muse/Alloc/First.antt =====
-- The first allocations of a process (`musemalloc`, `crearSegmento` and `extenderSegmento` of
-- Memoria/muse.c).
use linuse_tp_os.Base.{
  ℕ, ◌+◌, ◌-◌, ◌*◌, ◌/◌, ◌%◌, ◌^◌, ◌≤◌, ◌<◌, ◌≡◌, refl, ap, true, false, none, some, List, [], ◌∷◌,
  arith, ltb, ◌==◌, clave_nombre, clave_numero, ok, get_elem?, set, get_elem?-set_self,
  get_elem?-lt, lookup, insert, lookup-insert_self,
}
use linuse_tp_os.Muse.Model.{Frame, HeapLista, Segmento, Muse}
use linuse_tp_os.Muse.Heap.{
  suelto, en_tabla, segmento_en, con_segmento, crecer, pagina_nueva, agregar_pagina, desplazamiento,
  bytes_restantes, queda_partida, heap_en, agregar_metadata, ubicar_metadata, igual_indice,
  indice_desde, obtener_indice_pagina, asignar_primera_pagina,
}
use linuse_tp_os.Muse.Heap.Present.{
  tomado, agregar_pagina-libre, posicion_pagina-presente, ubicar_metadata-entera,
}
use linuse_tp_os.Muse.Alloc.{
  techo, asignar_paginas, tomar_ultima_metadata, agregar_segmento, crear_segmento, direccion_de,
  malloc_primero, musemalloc,
}
use linuse_tp_os.Muse.Segments.{resta, segmento_de}
use linuse_tp_os.Muse.Frames.{buscar_frame_libre}
use native.Mathlib.Nat.{div-eq_of_lt, div-eq-sub-div, zero-mod}

pub techo-uno : (n tam : ℕ) → 1 ≤ n → n ≤ tam → techo n tam ≡ 1
unfolding techo
techo-uno n tam a b =
    let p : (n + tam - 1) / tam ≡ (n + tam - 1 - tam) / tam + 1 =
      div-eq-sub-div (omega arith) (omega arith) in
    let q : (n + tam - 1 - tam) / tam ≡ 0 = div-eq_of_lt (omega arith) in rw (p, q)

-- The piece of the first allocation, and the segment that holds it.
abbrev pub pieza_primera : ℕ → HeapLista
pieza_primera tamanio = record {
  direccion_heap = 0;
  is_free = false;
  size = tamanio;
  esta_partido = false;
  bytes_primera_pagina = 5;
}

abbrev pub segmento_primero : ℕ → ℕ → ℕ → List HeapLista → ℕ → Segmento
segmento_primero memoria tam i hs tamanio = record {
  es_comun = true;
  file_path = none;
  id = 0;
  base_logica = memoria;
  tamanio = tamanio;
  tabla_paginas = pagina_nueva i ∷ [];
  paginas_liberadas = 0;
  metadatas = hs;
}

-- The state with a frame taken, and one segment in the table of a process.
abbrev pub con_unico : ℕ → ℕ → Segmento → Muse → Muse
con_unico cliente i sg m = record m {
  bitmap_frames = set m.bitmap_frames i tomado;
  tablas_segmentos = insert cliente (sg ∷ []) m.tablas_segmentos;
}

pub segmento_en-unico :
    (cliente i : ℕ) (n : Muse) (sg : Segmento)
    → segmento_en (con_unico cliente i sg n, en_tabla cliente 0) ≡ ok sg
unfolding segmento_en segmento_de
segmento_en-unico cliente i n sg = rw (lookup-insert_self cliente (sg ∷ []) n.tablas_segmentos)

pub heap_en-cero :
    (tam tamanio : ℕ) → 5 ≤ tam → tam < 2 ^ 32 → heap_en tam 0 false tamanio ≡ pieza_primera tamanio
unfolding heap_en queda_partida bytes_restantes desplazamiento resta
heap_en-cero tam tamanio h l =
    let z : 0 % tam ≡ 0 = zero-mod tam in
    let r : ltb ((tam + 2 ^ 32 - 0) % 2 ^ 32) 5 ≡ false = ground arith in rw (z, r)

module _ (memoria cliente : ℕ) (m : Muse) (i : ℕ) (f : Frame)
    (vacia : lookup cliente m.tablas_segmentos ≡ some [])
    (libre : buscar_frame_libre m.bitmap_frames ≡ some i)
    (frame : get_elem? m.bitmap_frames i ≡ some f) (chica : 5 ≤ m.tam_pagina)
    (cabe : m.tam_pagina < 2 ^ 31) where
  abbrev m1 : Muse
  m1 = record m { bitmap_frames = set m.bitmap_frames i tomado }

  -- One page holds the metadata and the size of the segment is that of a page.
  asignar_primera_pagina-primero :
      (tamanio : ℕ)
      → asignar_primera_pagina tamanio
          (m, suelto (record (segmento_primero memoria m.tam_pagina i [] 0) { tabla_paginas = [] }))
        ≡ ok (
          (
            m1,
            suelto
                (segmento_primero memoria m.tam_pagina i (pieza_primera tamanio ∷ []) m.tam_pagina),
          ),
          false,
        )
  unfolding asignar_primera_pagina segmento_en con_segmento obtener_indice_pagina indice_desde
      igual_indice agregar_metadata crecer
  asignar_primera_pagina-primero tamanio =
      let sg0 : Segmento = record (segmento_primero memoria m.tam_pagina i [] 0) {
        tabla_paginas = [];
      } in
      let sg1 : Segmento = segmento_primero memoria m.tam_pagina i [] 0 in
      let sg2 : Segmento = segmento_primero memoria m.tam_pagina i (pieza_primera tamanio ∷ []) 0 in
      let t : get_elem? m1.bitmap_frames i ≡ some tomado =
        get_elem?-set_self m.bitmap_frames i tomado (get_elem?-lt m.bitmap_frames i frame) in
      let a : agregar_pagina (m, suelto sg0) ≡ ok (m1, suelto sg1) =
        agregar_pagina-libre m (suelto sg0) i f sg0 libre frame refl in
      let b : (i == i) ≡ true = ground arith in
      let c : 0 * m.tam_pagina ≡ 0 = omega arith in
      let h = heap_en-cero m.tam_pagina tamanio chica (omega arith) in
      let q : queda_partida m.tam_pagina 0 ≡ false =
        unfold heap_en in ap (λ (x : HeapLista). x.esta_partido) h in
      let u : ubicar_metadata 0 false tamanio 0 (m1, suelto sg1) ≡ ok ((m1, suelto sg2), false) =
        ubicar_metadata-entera m1 (suelto sg1) sg1 0 i refl refl 0 false tamanio (m1, suelto sg2) t
          q (rw h) in
      let d : (0 + m.tam_pagina) % 2 ^ 32 ≡ m.tam_pagina = omega arith in rw (a, b, c, u, d)

  -- The state after the first allocation of a size that fits into a page with two metadatas.
  abbrev pub tras_primera : ℕ → Muse
  tras_primera tamanio =
      con_unico cliente i
        (segmento_primero memoria m.tam_pagina i (pieza_primera tamanio ∷ []) m.tam_pagina) m

  crear_segmento-primero :
      (tamanio : ℕ)
      → tamanio + 10 ≤ m.tam_pagina
      → crear_segmento memoria tamanio cliente m ≡ ok (tras_primera tamanio, 0)
  unfolding crear_segmento segmento_en tomar_ultima_metadata con_segmento asignar_paginas
      agregar_segmento
  crear_segmento-primero tamanio l =
      let b : (tamanio + 10) % 2 ^ 32 ≡ tamanio + 10 = omega arith in
      let t : techo (tamanio + 10) m.tam_pagina ≡ 1 = techo-uno _ _ (omega arith) l in
      rw (vacia, asignar_primera_pagina-primero tamanio, b, t, vacia)

  malloc_primero-lugar :
      (tamanio : ℕ)
      → tamanio + 10 ≤ m.tam_pagina
      → malloc_primero memoria tamanio cliente m
        ≡ ok (tras_primera tamanio, (memoria + (i * m.tam_pagina + 5)) % 2 ^ 32)
  unfolding malloc_primero direccion_de
  malloc_primero-lugar tamanio l =
      let sg = segmento_primero memoria m.tam_pagina i (pieza_primera tamanio ∷ []) m.tam_pagina in
      rw (
        crear_segmento-primero tamanio l,
        posicion_pagina-presente (tras_primera tamanio) (en_tabla cliente 0) sg 0 i
            (segmento_en-unico cliente i m sg) refl,
      )

  pub musemalloc-lugar :
      (tamanio : ℕ)
      → tamanio + 10 ≤ m.tam_pagina
      → musemalloc memoria tamanio cliente m
        ≡ ok (tras_primera tamanio, (memoria + (i * m.tam_pagina + 5)) % 2 ^ 32)
  unfolding musemalloc
  musemalloc-lugar tamanio l = rw (vacia, musemalloc) (malloc_primero-lugar tamanio l)
