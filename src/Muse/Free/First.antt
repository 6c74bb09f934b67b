-- ===== src/Muse/Free/First.antt =====
-- The first allocation of a process, given back (`musemalloc` and `musefree` of Memoria/muse.c).
use linuse_tp_os.Base.{
  ℕ, zero, suc, ◌+◌, ◌-◌, ◌*◌, ◌/◌, ◌%◌, ◌^◌, ◌≤◌, ◌<◌, ◌≡◌, refl, subst, true, false, some, [],
  ◌∷◌, arith, ltb, ◌==◌, if◌then◌else◌, clave_nombre, clave_numero, negsuc, puntero_nulo, ok, fallo,
  Garantiza, lookup, lookup-insert_self,
}
use linuse_tp_os.Muse.Model.{Segmento, Muse}
use linuse_tp_os.Muse.Alloc.First.{
  pieza_primera, segmento_primero, con_unico, segmento_en-unico, musemalloc-lugar,
}
use linuse_tp_os.Muse.Segments.{resta, segmento_de}
use linuse_tp_os.Muse.Free.{
  indice_que_contiene, fin_de_metadata, indice_de_metadata, escribir_metadata, marcar_libre,
  liberar_metadata, liberar_con_paginas, liberar_en, musefree,
}
use linuse_tp_os.Muse.Alloc.{musemalloc}
use linuse_tp_os.Muse.Alloc.Repeated.{con_segmento-unico}
use linuse_tp_os.Muse.Frames.{buscar_frame_libre}
use linuse_tp_os.Muse.Frames.Search.{PrimeroLibre, buscar_frame_libre-PrimeroLibre}
use linuse_tp_os.Muse.Heap.{en_tabla, igual_indice, indice_desde, obtener_indice_pagina}
use linuse_tp_os.Muse.Heap.Present.{posicion_pagina-presente}
use native.Mathlib.Nat.{div-eq_of_lt, zero-mod}

module _ (memoria cliente : ℕ) (m : Muse) (a : ℕ) (chica : 6 ≤ m.tam_pagina)
    (cabe : m.tam_pagina < 2 ^ 31) where
  abbrev unico : ℕ → Segmento
  unico i = segmento_primero memoria m.tam_pagina i (pieza_primera a ∷ []) m.tam_pagina

  -- In another frame than the first the address lies after the segment.
  musefree-fuera :
      (i : ℕ)
      → memoria + (suc i + 1) * m.tam_pagina ≤ 2 ^ 32
      → musefree cliente
          ((memoria + (suc i * m.tam_pagina + 5)) % 2 ^ 32)
          (con_unico cliente (suc i) (unico (suc i)) m)
        ≡ ok (con_unico cliente (suc i) (unico (suc i)) m, negsuc 0)
  unfolding musefree indice_que_contiene resta
  musefree-fuera i l =
      let p : (suc i + 1) * m.tam_pagina ≡ i * m.tam_pagina + m.tam_pagina + m.tam_pagina =
        grind arith in
      let q : suc i * m.tam_pagina ≡ i * m.tam_pagina + m.tam_pagina = grind arith in
      let r : ltb (((memoria + (suc i * m.tam_pagina + 5)) % 2 ^ 32 + 2 ^ 32 - memoria) % 2 ^ 32)
            m.tam_pagina
          ≡ false =
        rw q (ground arith) in
      let v : lookup cliente (con_unico cliente (suc i) (unico (suc i)) m).tablas_segmentos
          ≡ some (unico (suc i) ∷ []) =
        lookup-insert_self cliente (unico (suc i) ∷ []) m.tablas_segmentos in
      rw (v, musefree) (rw r)

  -- The metadata of an address in the first page is written to the page before that.
  liberar_metadata-nulo :
      liberar_metadata 5 0 (con_unico cliente 0 (unico 0) m, en_tabla cliente 0)
      ≡ fallo puntero_nulo
  unfolding liberar_metadata marcar_libre escribir_metadata
  liberar_metadata-nulo =
      let z : 0 % m.tam_pagina ≡ 0 = zero-mod m.tam_pagina in
      let y : 0 / m.tam_pagina ≡ 0 = div-eq_of_lt (omega arith) in
      let w : 0 * m.tam_pagina ≡ 0 = omega arith in
      let x : indice_de_metadata m.tam_pagina 5 0 (pieza_primera a ∷ []) ≡ some 0 =
        unfold indice_de_metadata fin_de_metadata in rw (y, z, w) in
      rw (segmento_en-unico cliente 0 m (unico 0), x, con_segmento-unico cliente 0 m (unico 0) _)

  -- In the first frame it is in the first page.
  musefree-nulo :
      memoria + m.tam_pagina ≤ 2 ^ 32
      → musefree cliente
          ((memoria + (0 * m.tam_pagina + 5)) % 2 ^ 32)
          (con_unico cliente 0 (unico 0) m)
        ≡ fallo puntero_nulo
  unfolding musefree indice_que_contiene liberar_en liberar_con_paginas segmento_de
      obtener_indice_pagina indice_desde igual_indice
  musefree-nulo l =
      let sg : Segmento = unico 0 in
      let d : resta ((memoria + (0 * m.tam_pagina + 5)) % 2 ^ 32) memoria ≡ 5 =
        unfold resta in omega arith in
      let r : ltb 5 m.tam_pagina ≡ true = ground arith in
      let n : 5 / m.tam_pagina ≡ 0 = div-eq_of_lt (omega arith) in
      let p =
        posicion_pagina-presente (con_unico cliente 0 sg m) (en_tabla cliente 0) sg 0 0
          (segmento_en-unico cliente 0 m sg) refl in
      let v : lookup cliente (con_unico cliente 0 sg m).tablas_segmentos ≡ some (sg ∷ []) =
        lookup-insert_self cliente (sg ∷ []) m.tablas_segmentos in
      rw (v, musefree) (rw (d, r, v, d, n, p, liberar_metadata-nulo))

-- A process with no segment allocates a size that fits into a page with two metadatas, while the frame
-- `i` is the first free one: the allocation ends, and `musefree` of the address that it returned
-- dereferences NULL where `i` is 0, and answers -1 and changes nothing otherwise. Pages have at least 6
-- bytes and fewer than 2 ^ 31, and the frame ends within 32 bits.
pub musefree-pieza_primera :
    (memoria cliente : ℕ) (m : Muse) (i a : ℕ)
    → lookup cliente m.tablas_segmentos ≡ some []
    → buscar_frame_libre m.bitmap_frames ≡ some i
    → 6 ≤ m.tam_pagina
    → m.tam_pagina < 2 ^ 31
    → memoria + (i + 1) * m.tam_pagina ≤ 2 ^ 32
    → a + 10 ≤ m.tam_pagina
    → Garantiza
        (λ r.
          musefree cliente r.1 r.0 ≡ (if i == 0 then fallo puntero_nulo else ok (r.0, negsuc 0)))
        (musemalloc memoria a cliente m)
musefree-pieza_primera memoria cliente m i a vacia libre chica cabe ram l =
    let (e, _) =
      subst (PrimeroLibre m.bitmap_frames) libre
        (buscar_frame_libre-PrimeroLibre m.bitmap_frames) in
    let (f, g, x) = e in
    rw (musemalloc-lugar memoria cliente m i f vacia libre g (omega arith) cabe a l) (casos i ram)
  where
    casos :
        (i : ℕ)
        → memoria + (i + 1) * m.tam_pagina ≤ 2 ^ 32
        → musefree cliente
            ((memoria + (i * m.tam_pagina + 5)) % 2 ^ 32)
            (con_unico cliente i (unico memoria cliente m a chica cabe i) m)
          ≡ (if i == 0
              then fallo puntero_nulo
              else ok (con_unico cliente i (unico memoria cliente m a chica cabe i) m, negsuc 0))
    casos zero r = musefree-nulo memoria cliente m a chica cabe (omega arith)
    casos (suc i) r =
        let e : (suc i == 0) ≡ false = ground arith in
        rw e (musefree-fuera memoria cliente m a chica cabe i r)
