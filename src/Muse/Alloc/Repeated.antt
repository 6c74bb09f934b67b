-- ===== src/Muse/Alloc/Repeated.antt =====
-- A second allocation of a process (`musemalloc` of Memoria/muse.c).
use linuse_tp_os.Base.{
  ℕ, ◌+◌, ◌-◌, ◌*◌, ◌/◌, ◌%◌, ◌^◌, ◌≤◌, ◌<◌, ◌≡◌, refl, ◌∙◌, subst, true, false, not, some, List,
  [], ◌∷◌, arith, ltb, ◌==◌, clave_nombre, clave_numero, Resultado, ok, ◌>>=◌, Garantiza, length,
  get_elem?-set_self, get_elem?-lt, lookup, lookup-insert_self, insert-insert,
}
use linuse_tp_os.Muse.Model.{HeapLista, Segmento, Muse}
use linuse_tp_os.Muse.Heap.{
  en_tabla, con_segmento, crecer, desplazamiento, bytes_restantes, queda_partida, heap_en,
  agregar_metadata, asignar_ultima_pagina,
}
use linuse_tp_os.Muse.Alloc.First.{
  techo-uno, pieza_primera, segmento_primero, con_unico, segmento_en-unico, musemalloc-lugar,
}
use linuse_tp_os.Muse.Segments.{resta, segmento_de}
use linuse_tp_os.Muse.Alloc.{
  techo_int, supera, asignar_paginas, tomar_ultima_metadata, sin_lo_libre, extender_segmento,
  es_extendible, buscar_extendible, comienzo_datos, indice_de_segmento, direccion_de, datos_en,
  malloc_extendiendo, malloc_sin_libre, musemalloc,
}
use linuse_tp_os.Muse.Heap.Present.{tomado, posicion_pagina-presente, ubicar_metadata-entera}
use linuse_tp_os.Muse.Frames.{buscar_frame_libre}
use linuse_tp_os.Muse.Frames.Search.{PrimeroLibre, buscar_frame_libre-PrimeroLibre}
use native.Mathlib.Nat.{div-eq_of_lt, mod-eq_of_lt, mul-add-mod_self_right, zero-mod}

pub con_segmento-unico :
    (cliente i : ℕ) (m : Muse) (sg sg' : Segmento)
    → con_segmento sg' (con_unico cliente i sg m, en_tabla cliente 0)
      ≡ ok (con_unico cliente i sg' m, en_tabla cliente 0)
unfolding con_segmento
con_segmento-unico cliente i m sg sg' = rw (
  lookup-insert_self cliente (sg ∷ []) m.tablas_segmentos,
  insert-insert cliente (sg' ∷ []) (sg ∷ []) m.tablas_segmentos,
)

-- The address of the second metadata, in the frame `i` after `n` bytes of the page after it.
direccion_segunda :
    (i tam n : ℕ)
    → n < tam
    → 5 ≤ tam
    → (i + 2) * tam ≤ 2 ^ 31
    → (i * tam + (resta tam 5 + (n + 5))) % 2 ^ 32 ≡ (i + 1) * tam + n
unfolding resta
direccion_segunda i tam n a b c =
    let p : (i + 1) * tam ≡ i * tam + tam = grind arith in
    let q : (i + 2) * tam ≡ i * tam + tam + tam = grind arith in rw p (omega arith)

queda_entera :
    (i tam n : ℕ)
    → n + 5 ≤ tam
    → (i + 2) * tam ≤ 2 ^ 31
    → queda_partida tam ((i + 1) * tam + n) ≡ false
unfolding queda_partida bytes_restantes desplazamiento resta
queda_entera i tam n a c =
    let p : (i + 1) * tam ≡ i * tam + tam = grind arith in
    let q : (i + 2) * tam ≡ i * tam + tam + tam = grind arith in
    let l : ltb ((i + 1) * tam + n) (2 ^ 31) ≡ true = rw p (ground arith) in
    let t : ((i + 1) * tam + n) % tam ≡ n =
      mul-add-mod_self_right (i + 1) tam n ∙ mod-eq_of_lt (omega arith) in
    let r : ltb ((tam + 2 ^ 32 - n) % 2 ^ 32) 5 ≡ false = ground arith in rw (l, t, r)

-- The second piece, of what is left of the page; it is taken where nothing is left.
abbrev pub pieza_segunda : ℕ → ℕ → ℕ → HeapLista
pieza_segunda tam i tamanio = record {
  direccion_heap = (i + 1) * tam + tamanio;
  is_free = not (tamanio + 5 == tam);
  size = tam - (tamanio + 5);
  esta_partido = false;
  bytes_primera_pagina = 5;
}

module _ (memoria cliente : ℕ) (m : Muse) (i : ℕ) (dentro : i < length m.bitmap_frames)
    (chica : 5 ≤ m.tam_pagina) (cabe : (i + 2) * m.tam_pagina ≤ 2 ^ 31) (b : ℕ)
    (entra : b + 5 ≤ m.tam_pagina) where
  abbrev segmento_con : List HeapLista → ℕ → Segmento
  segmento_con hs n = segmento_primero memoria m.tam_pagina i hs n

  -- The page is asked for no other one, and the segment is counted one page larger.
  asignar_ultima_pagina-unico :
      asignar_ultima_pagina (b + 5) (
        con_unico cliente i (segmento_con (pieza_primera b ∷ []) m.tam_pagina) m,
        en_tabla cliente 0,
      )
      ≡ ok (
        con_unico cliente i
            (segmento_con
              (pieza_primera b ∷ pieza_segunda m.tam_pagina i b ∷ [])
              (2 * m.tam_pagina))
            m,
        en_tabla cliente 0,
      )
  unfolding asignar_ultima_pagina agregar_metadata crecer
  asignar_ultima_pagina-unico =
      let sg1 : Segmento = segmento_con (pieza_primera b ∷ []) m.tam_pagina in
      let sg2 : Segmento =
        segmento_con (pieza_primera b ∷ pieza_segunda m.tam_pagina i b ∷ []) m.tam_pagina in
      let s = en_tabla cliente 0 in
      let lejos : (i + 2) * m.tam_pagina ≡ i * m.tam_pagina + m.tam_pagina + m.tam_pagina =
        grind arith in
      let d = direccion_segunda i m.tam_pagina b (omega arith) chica cabe in
      let r : resta m.tam_pagina (b + 5) ≡ m.tam_pagina - (b + 5) = unfold resta in omega arith in
      let q = queda_entera i m.tam_pagina b entra cabe in
      let h : heap_en m.tam_pagina ((i + 1) * m.tam_pagina + b) (not (b + 5 == m.tam_pagina))
            (m.tam_pagina - (b + 5))
          ≡ pieza_segunda m.tam_pagina i b =
        unfold heap_en in rw q in
      let u =
        ubicar_metadata-entera (con_unico cliente i sg1 m) s sg1 0 i
          (segmento_en-unico cliente i m sg1) refl ((i + 1) * m.tam_pagina + b)
          (not (b + 5 == m.tam_pagina)) (m.tam_pagina - (b + 5)) (con_unico cliente i sg2 m, s)
          (get_elem?-set_self m.bitmap_frames i tomado dentro) q
          (rw (h, segmento_en-unico cliente i m sg1) (con_segmento-unico cliente i m sg1 sg2)) in
      let c : (m.tam_pagina + m.tam_pagina) % 2 ^ 32 ≡ 2 * m.tam_pagina = omega arith in
      rw (segmento_en-unico cliente i m sg1, d, r, u, segmento_en-unico cliente i m sg2, c)
        (con_segmento-unico cliente i m sg2 _)

  extender_segmento-unico :
      (a : ℕ)
      → extender_segmento b (
        con_unico cliente i (segmento_con (pieza_primera a ∷ []) m.tam_pagina) m,
        en_tabla cliente 0,
      )
        ≡ ok (
          con_unico cliente i
              (segmento_con
                (pieza_primera b ∷ pieza_segunda m.tam_pagina i b ∷ [])
                (2 * m.tam_pagina))
              m,
          en_tabla cliente 0,
        )
  unfolding extender_segmento tomar_ultima_metadata sin_lo_libre techo_int asignar_paginas supera
  extender_segmento-unico a =
      let lejos : (i + 2) * m.tam_pagina ≡ i * m.tam_pagina + m.tam_pagina + m.tam_pagina =
        grind arith in
      let sg1 : Segmento = segmento_con (pieza_primera a ∷ []) m.tam_pagina in
      let sg2 : Segmento = segmento_con (pieza_primera b ∷ []) m.tam_pagina in
      let e : (b + 5) % 2 ^ 32 ≡ b + 5 = omega arith in
      let l : ltb (b + 5) (2 ^ 31) ≡ true = ground arith in
      let t = techo-uno (b + 5) m.tam_pagina (omega arith) entra in
      let g : ltb m.tam_pagina (b + 5) ≡ false = ground arith in
      rw (
        segmento_en-unico cliente i m sg1,
        con_segmento-unico cliente i m sg1 sg2,
        e,
        l,
        t,
        g,
        asignar_ultima_pagina-unico,
      )

  -- The address after the metadata of the first piece, again.
  comienzo_datos-primera :
      comienzo_datos (pieza_primera b) (
        con_unico cliente i
            (segmento_con
              (pieza_primera b ∷ pieza_segunda m.tam_pagina i b ∷ [])
              (2 * m.tam_pagina))
            m,
        en_tabla cliente 0,
      )
      ≡ ok (
        (
          con_unico cliente i
              (segmento_con
                (pieza_primera b ∷ pieza_segunda m.tam_pagina i b ∷ [])
                (2 * m.tam_pagina))
              m,
          en_tabla cliente 0,
        ),
        i * m.tam_pagina + 5,
      )
  unfolding comienzo_datos
  comienzo_datos-primera =
      let sg : Segmento =
        segmento_con (pieza_primera b ∷ pieza_segunda m.tam_pagina i b ∷ []) (2 * m.tam_pagina) in
      let z : 0 % m.tam_pagina ≡ 0 = zero-mod m.tam_pagina in
      let y : 0 / m.tam_pagina ≡ 0 = div-eq_of_lt (omega arith) in
      rw (
        z,
        y,
        posicion_pagina-presente (con_unico cliente i sg m) (en_tabla cliente 0) sg 0 i
            (segmento_en-unico cliente i m sg) refl,
      )

  pub musemalloc-otra :
      (a : ℕ)
      → musemalloc memoria b cliente
          (con_unico cliente i (segmento_con (pieza_primera a ∷ []) m.tam_pagina) m)
        ≡ ok (
          con_unico cliente i
              (segmento_con
                (pieza_primera b ∷ pieza_segunda m.tam_pagina i b ∷ [])
                (2 * m.tam_pagina))
              m,
          (memoria + (i * m.tam_pagina + 5)) % 2 ^ 32,
        )
  unfolding musemalloc indice_de_segmento malloc_sin_libre buscar_extendible es_extendible
      malloc_extendiendo datos_en segmento_de direccion_de
  musemalloc-otra a =
      let sg1 : Segmento = segmento_con (pieza_primera a ∷ []) m.tam_pagina in
      let sg2 : Segmento =
        segmento_con (pieza_primera b ∷ pieza_segunda m.tam_pagina i b ∷ []) (2 * m.tam_pagina) in
      let v : lookup cliente (con_unico cliente i sg1 m).tablas_segmentos ≡ some (sg1 ∷ []) =
        lookup-insert_self cliente (sg1 ∷ []) m.tablas_segmentos in
      let w : lookup cliente (con_unico cliente i sg2 m).tablas_segmentos ≡ some (sg2 ∷ []) =
        lookup-insert_self cliente (sg2 ∷ []) m.tablas_segmentos in
      rw (v, musemalloc) (rw (extender_segmento-unico a, w, comienzo_datos-primera))

-- The addresses of two allocations, one after the other.
abbrev pub dos_direcciones : ℕ → ℕ → ℕ → ℕ → Muse → Resultado (ℕ × ℕ)
dos_direcciones memoria a b cliente m = do
  (m1, p) ← musemalloc memoria a cliente m
  (m2, q) ← musemalloc memoria b cliente m1
  ok (p, q)

-- A process with no segment allocates a size that fits into a page with two metadatas, while the frame
-- `i` is the first free one, and then a size that fits into a page with one: both allocations end, and
-- the second returns the address of the first. Pages have at least 5 bytes, and the frame ends, with one
-- more after it, at or below 2 ^ 31.
pub musemalloc-dos_direcciones :
    (memoria cliente : ℕ) (m : Muse) (i a b : ℕ)
    → lookup cliente m.tablas_segmentos ≡ some []
    → buscar_frame_libre m.bitmap_frames ≡ some i
    → 5 ≤ m.tam_pagina
    → (i + 2) * m.tam_pagina ≤ 2 ^ 31
    → a + 10 ≤ m.tam_pagina
    → b + 5 ≤ m.tam_pagina
    → Garantiza (λ r. r.0 ≡ r.1) (dos_direcciones memoria a b cliente m)
musemalloc-dos_direcciones memoria cliente m i a b vacia libre chica cabe l k =
    let (e, _) =
      subst (PrimeroLibre m.bitmap_frames) libre
        (buscar_frame_libre-PrimeroLibre m.bitmap_frames) in
    let (f, g, x) = e in
    let n : (i + 2) * m.tam_pagina ≡ i * m.tam_pagina + m.tam_pagina + m.tam_pagina = grind arith in
    rw
      (
        musemalloc-lugar memoria cliente m i f vacia libre g chica (omega arith) a l,
        musemalloc-otra memoria cliente m i (get_elem?-lt m.bitmap_frames i g) chica cabe b k a,
      )
      refl
