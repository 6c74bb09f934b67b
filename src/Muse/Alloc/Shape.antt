-- ===== src/Muse/Alloc/Shape.antt =====
-- What a new segment looks like (`crearSegmento` of Memoria/muse.c).
use linuse_tp_os.Base.{
  ℕ, zero, suc, ◌+◌, ◌-◌, ◌*◌, ◌/◌, ◌%◌, ◌^◌, ◌≤◌, ◌<◌, ◌≡◌, refl, ap, ◌∙◌, subst, Bool, true,
  false, Option, none, some, List, [], ◌∷◌, ◌++◌, arith, ◌==◌, if◌then◌else◌, clave_nombre,
  clave_numero, ok, ◌>>=◌, Logra, Logra->>=, Logra-resto, Logra-desref, length, get_elem?, set,
  Dict, lookup, lookup-insert_self,
}
use linuse_tp_os.Muse.Model.{Pagina, HeapLista, Segmento, Muse}
use linuse_tp_os.Muse.Heap.{
  Sitio, suelto, en_tabla, Obra, segmento_en, con_segmento, crecer, agregar_pagina, heap_en,
  ubicar_metadata, igual_indice, indice_desde, obtener_indice_pagina, asignar_primera_pagina,
}
use linuse_tp_os.Muse.Heap.Measures.{
  Mide, agregar_pagina-Mide, crecer-Mide, Mide-tam, TrasPieza, Ubicada, ubicar_metadata-Ubicada,
}
use linuse_tp_os.Muse.Alloc.{
  techo, asignar_paginas, tomar_ultima_metadata, sin_lo_libre, agregar_segmento, crear_segmento,
}
use linuse_tp_os.Muse.Alloc.First.{pieza_primera, heap_en-cero}
use linuse_tp_os.Muse.Alloc.Pages.{DeMas, asignar_paginas-DeMas}
use linuse_tp_os.Muse.Segments.{resta, obtener_tamanio_segmento}
use native.Mathlib.Nat.{div-eq_of_lt, mul-add-div_right}

indice-cero :
    (ps : List Pagina) (pg : Pagina)
    → length ps ≡ 1
    → get_elem? ps (length ps - 1) ≡ some pg
    → obtener_indice_pagina ps pg ≡ some 0
unfolding obtener_indice_pagina indice_desde
indice-cero [] pg l e = absurd (omega arith)
indice-cero (q ∷ []) pg l e =
    let x : q ≡ pg = cc in
    rw x
      (rw (iguales_indices pg.numero_frame, iguales_indices pg.indice_swap, ==-refl pg.presencia))
  where
    iguales_indices : (o : Option ℕ) → igual_indice o o ≡ true
    iguales_indices none = unfold igual_indice in refl
    iguales_indices (some i) = unfold igual_indice in ground arith

    ==-refl : (n : ℕ) → (n == n) ≡ true
    ==-refl n = ground arith
indice-cero (q ∷ r ∷ ps) pg l e = absurd (omega arith)

unica :
    (tamanio : ℕ) (hs : List HeapLista) (h : HeapLista)
    → hs ≡ pieza_primera tamanio ∷ []
    → get_elem? hs (length hs - 1) ≡ some h
    → (h ≡ pieza_primera tamanio)
      × (set hs (length hs - 1) (record h { size = tamanio; is_free = false })
          ≡ pieza_primera tamanio ∷ [])
unica tamanio hs h e x =
    let y : some (pieza_primera tamanio) ≡ some h = rw e at x in
    let z : h ≡ pieza_primera tamanio = cc in (z, rw (e, z))

module _ (tam : ℕ) where
  -- A size of `k` pages and `t` bytes, of at most a page, with its two metadatas. In one page: its piece
  -- is the only one, and the segment is as large as the page. In more: a second piece has what the last
  -- page leaves, and the segment counts one page more than it has.
  abbrev pub Forma : ℕ → ℕ → ℕ → Obra → Type 0
  Forma tamanio zero t o = Mide tam 1 (1 * tam % 2 ^ 32) (pieza_primera tamanio ∷ []) o
  Forma tamanio (suc k) t o = DeMas tam t (pieza_primera tamanio) (1 + k) o

module _ (tam : ℕ) (chica : 5 ≤ tam) (cabe : tam < 2 ^ 31) where
  asignar_primera_pagina-Mide :
      (tamanio : ℕ) (o : Obra)
      → Mide tam 0 0 [] o
      → Logra
          (λ r. (r.1 ≡ false) × Mide tam 1 (1 * tam % 2 ^ 32) (pieza_primera tamanio ∷ []) r.0)
          (asignar_primera_pagina tamanio o)
  unfolding asignar_primera_pagina
  asignar_primera_pagina-Mide tamanio o e =
      let T = (o.0).tam_pagina in
      let t : T ≡ tam = Mide-tam tam 0 0 [] o e in
      let c : 0 * T ≡ 0 = omega arith in
      let y : (0 + T) % 2 ^ 32 ≡ 1 * tam % 2 ^ 32 =
        ap (λ (x : ℕ). (0 + x) % 2 ^ 32) t ∙ omega arith in
      let Q = λ (r : Obra × Bool).
        (r.1 ≡ false) × Mide tam 1 (1 * tam % 2 ^ 32) (pieza_primera tamanio ∷ []) r.0 in
      Logra->>= (Mide tam 1 0 []) Q (agregar_pagina o) _ (agregar_pagina-Mide tam 0 0 [] o e)
        λ o1 x e1.
          let H = heap_en (o1.0).tam_pagina (0 * T) false tamanio in
          let he : H ≡ pieza_primera tamanio =
            ap (λ x. heap_en x (0 * T) false tamanio) (Mide-tam tam 1 0 [] o1 e1)
            ∙ (rw c (heap_en-cero tam tamanio chica (omega arith))) in
          Logra->>= (λ sg. length sg.tabla_paginas ≡ 1) Q (segmento_en o1) _ (una_pagina o1 e1)
            λ sg z l.
              Logra-desref Q (get_elem? sg.tabla_paginas (length sg.tabla_paginas - 1)) _ λ pg w.
                rw (indice-cero sg.tabla_paginas pg l w) (
                  Logra->>= (Ubicada tam 1 0 [] H) Q (ubicar_metadata (0 * T) false tamanio 0 o1) _
                    (ubicar_metadata-Ubicada tam 1 0 [] (0 * T) false tamanio 0 o1 e1)
                    λ (o2, p) v (q, u).
                      let p' : p ≡ false = q ∙ ap (λ (h : HeapLista). h.esta_partido) he in
                      let u' = subst (λ h. TrasPieza tam 1 0 (h ∷ []) h.esta_partido o2) he u in
                      rw p' (
                        Logra->>= (Mide tam 1 ((0 + T) % 2 ^ 32) (pieza_primera tamanio ∷ [])) Q
                          (crecer T o2) _ (crecer-Mide tam 1 0 (pieza_primera tamanio ∷ []) T o2 u')
                          λ o3 r m.
                            (refl, subst (λ b. Mide tam 1 b (pieza_primera tamanio ∷ []) o3) y m)))
    where
      una_pagina :
          (o1 : Obra)
          → Mide tam 1 0 [] o1
          → Logra (λ sg. length sg.tabla_paginas ≡ 1) (segmento_en o1)
      una_pagina (m, suelto sg) h = unfold segmento_en in h.1
      una_pagina (m, en_tabla a b) h = absurd h

  tomar_ultima_metadata-Mide :
      (tamanio b : ℕ) (o : Obra)
      → Mide tam 1 b (pieza_primera tamanio ∷ []) o
      → Logra
          (λ r. (r.1.is_free ≡ false) × Mide tam 1 b (pieza_primera tamanio ∷ []) r.0)
          (tomar_ultima_metadata tamanio o)
  unfolding tomar_ultima_metadata segmento_en con_segmento
  tomar_ultima_metadata-Mide tamanio b (m, en_tabla c j) h = absurd h
  tomar_ultima_metadata-Mide tamanio b (m, suelto sg) (t, p, q, hs) =
      let Q = λ (r : Obra × HeapLista).
        (r.1.is_free ≡ false) × Mide tam 1 b (pieza_primera tamanio ∷ []) r.0 in
      Logra-desref Q (get_elem? sg.metadatas (length sg.metadatas - 1)) _ λ h x.
        let (y, z) = unica tamanio sg.metadatas h hs x in
        (ap (λ (g : HeapLista). g.is_free) y, (t, p, q, z))

  techo-resto : (k t : ℕ) → 1 ≤ t → t ≤ tam → techo (k * tam + t) tam ≡ k + 1
  unfolding techo
  techo-resto k t p l =
      let e : k * tam + t + tam - 1 ≡ (k + 1) * tam + (t - 1) = grind arith in
      let d : ((k + 1) * tam + (t - 1)) / tam ≡ k + 1 + (t - 1) / tam =
        mul-add-div_right (omega arith) (k + 1) (t - 1) in
      let z : (t - 1) / tam ≡ 0 = div-eq_of_lt (omega arith) in rw (e, d, z) (omega arith)

  asignar_paginas-Forma :
      (tamanio k t : ℕ) (o : Obra)
      → 1 ≤ t
      → t ≤ tam
      → k * tam + t < 2 ^ 31
      → Mide tam 1 (1 * tam % 2 ^ 32) (pieza_primera tamanio ∷ []) o
      → Logra (Forma tam tamanio k t) (asignar_paginas k (resta (k * tam + t) tam) o)
  unfolding resta
  asignar_paginas-Forma tamanio zero t o p l c e = unfold asignar_paginas in e
  asignar_paginas-Forma tamanio (suc k) t o p l c e =
      let y : suc k * tam + t ≡ k * tam + t + tam = grind arith in
      let w : resta (suc k * tam + t) tam ≡ k * tam + t = omega arith in
      rw w
        (asignar_paginas-DeMas tam chica cabe k 1 t (pieza_primera tamanio) o p l (omega arith) e)

sin_lo_libre-ocupada :
    (bytes : ℕ) (h : HeapLista) → h.is_free ≡ false → sin_lo_libre bytes h ≡ bytes
unfolding sin_lo_libre
sin_lo_libre-ocupada bytes h e = rw e

-- The state has a new segment at the end of the process's table, with these measures.
abbrev pub ConSegmento : ℕ → ℕ → ℕ → ℕ → ℕ → Muse → Type 0
ConSegmento cliente tam tamanio k t m =
    (ss : List Segmento) × (sg : Segmento) × (lookup cliente m.tablas_segmentos
      ≡ some (ss ++ sg ∷ []))
    × Forma tam tamanio k t (m, suelto sg)

Forma-tablas :
    (tam tamanio k t : ℕ) (m : Muse) (sg : Segmento) (d : Dict ℕ (List Segmento))
    → Forma tam tamanio k t (m, suelto sg)
    → Forma tam tamanio k t (record m { tablas_segmentos = d }, suelto sg)
Forma-tablas tam tamanio zero t m sg d f = f
Forma-tablas tam tamanio (suc k) t m sg d f = f

agregar_segmento-suelto :
    (cliente tam tamanio k t : ℕ) (m : Muse) (sg : Segmento)
    → Forma tam tamanio k t (m, suelto sg)
    → Logra (ConSegmento cliente tam tamanio k t) (agregar_segmento cliente sg m)
unfolding agregar_segmento
agregar_segmento-suelto cliente tam tamanio k t m sg f =
    Logra-desref (ConSegmento cliente tam tamanio k t) (lookup cliente m.tablas_segmentos) _ λ ss a.
      (
        ss,
        sg,
        lookup-insert_self cliente (ss ++ sg ∷ []) m.tablas_segmentos,
        Forma-tablas tam tamanio k t m sg _ f,
      )

agregar_segmento-ConSegmento :
    (cliente tam tamanio k t n : ℕ) (m : Muse) (s : Sitio)
    → Forma tam tamanio k t (m, s)
    → Logra
        (λ (r : Muse × ℕ). ConSegmento cliente tam tamanio k t r.0)
        (do sg ← segmento_en (m, s); m' ← agregar_segmento cliente sg m; ok (m', n))
unfolding segmento_en
agregar_segmento-ConSegmento cliente tam tamanio zero t n m (en_tabla a b) f = absurd f
agregar_segmento-ConSegmento cliente tam tamanio (suc k) t n m (en_tabla a b) (u, p, x, y, z, f) =
    absurd f
agregar_segmento-ConSegmento cliente tam tamanio k t n m (suelto sg) f =
    let P = ConSegmento cliente tam tamanio k t in
    Logra->>= P (λ (r : Muse × ℕ). P r.0) (agregar_segmento cliente sg m) _
      (agregar_segmento-suelto cliente tam tamanio k t m sg f) λ m' a p. p

-- Where `crearSegmento` ends for a size that with its two metadatas is `k` pages and `t` bytes, with
-- 1 ≤ t ≤ the size of a page, and below 2 ^ 31: the process has a new segment at the end of its table.
-- If it needs one page, it has one, and the size of it. If it needs more, it has two pieces, the second
-- of what the last page leaves, which is free unless nothing is left, and its size is that of one page
-- more than it has, modulo 2 ^ 32. Pages have at least 5 bytes and fewer than 2 ^ 31.
pub crear_segmento-ConSegmento :
    (memoria tamanio cliente : ℕ) (m : Muse) (k t : ℕ)
    → 5 ≤ m.tam_pagina
    → m.tam_pagina < 2 ^ 31
    → tamanio + 10 ≡ k * m.tam_pagina + t
    → 1 ≤ t
    → t ≤ m.tam_pagina
    → tamanio + 10 < 2 ^ 31
    → Logra
        (λ r. ConSegmento cliente m.tam_pagina tamanio k t r.0)
        (crear_segmento memoria tamanio cliente m)
unfolding crear_segmento
crear_segmento-ConSegmento memoria tamanio cliente m k t chica cabe x p l c =
    let tam = m.tam_pagina in
    let Q = λ (r : Muse × ℕ). ConSegmento cliente tam tamanio k t r.0 in
    let b : (tamanio + 10) % 2 ^ 32 ≡ k * tam + t = omega (arith, x) in
    let d : techo (k * tam + t) tam - 1 ≡ k = omega (arith, techo-resto tam chica cabe k t p l) in
    let g : 1 * tam ≡ tam = omega arith in
    Logra-desref Q (lookup cliente m.tablas_segmentos) _ λ ss a.
      Logra-resto Q
        (if length ss == 0 then ok memoria else (do
          u ← obtener_tamanio_segmento (length ss - 1) cliente m
          ok ((u + 1 + memoria) % 2 ^ 32)))
        _
        λ base y.
          let sg0 : Segmento = record {
            es_comun = true;
            file_path = none;
            id = length ss;
            base_logica = base;
            tamanio = 0;
            tabla_paginas = [];
            paginas_liberadas = 0;
            metadatas = [];
          } in
          Logra->>=
            (λ (r : Obra × Bool).
              (r.1 ≡ false) × Mide tam 1 (1 * tam % 2 ^ 32) (pieza_primera tamanio ∷ []) r.0)
            Q (asignar_primera_pagina tamanio (m, suelto sg0)) _
            (asignar_primera_pagina-Mide tam chica cabe tamanio (m, suelto sg0)
              (refl, refl, refl, refl))
            λ (o1, partida) z (q, e1). rw q (
              Logra->>=
                (λ (r : Obra × HeapLista).
                  (r.1.is_free ≡ false)
                  × Mide tam 1 (1 * tam % 2 ^ 32) (pieza_primera tamanio ∷ []) r.0)
                Q (tomar_ultima_metadata tamanio o1) _
                (tomar_ultima_metadata-Mide tam chica cabe tamanio (1 * tam % 2 ^ 32) o1 e1)
                λ (o2, h) w (f, e2).
                  rw (b, g, d, sin_lo_libre-ocupada (resta (k * tam + t) tam) h f)
                    (Logra->>= (Forma tam tamanio k t) Q
                      (asignar_paginas k (resta (k * tam + t) tam) o2) _
                      (asignar_paginas-Forma tam chica cabe tamanio k t o2 p l (omega (arith, x))
                        e2)
                      λ (m3, s) v fo.
                        agregar_segmento-ConSegmento cliente tam tamanio k t (length ss) m3 s fo))
