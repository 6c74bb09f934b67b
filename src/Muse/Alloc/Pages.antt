-- ===== src/Muse/Alloc/Pages.antt =====
-- The segment that `crearSegmento` of Memoria/muse.c builds: its size, its pages and its pieces.
use linuse_tp_os.Base.{
  ℕ, zero, suc, ◌+◌, ◌-◌, ◌*◌, ◌%◌, ◌^◌, ◌≤◌, ◌<◌, ◌≡◌, refl, sym, ap, ◌∙◌, subst, Bool, true,
  false, not, List, [], ◌∷◌, arith, ltb, ◌==◌, Logra, Logra->>=, Logra-resto, Logra-desref,
  Logra-weaken, length, get_elem?,
}
use linuse_tp_os.Muse.Model.{HeapLista, Segmento}
use linuse_tp_os.Muse.Heap.{
  Obra, segmento_en, crecer, agregar_pagina, asignar_nueva_pagina, heap_en, ubicar_metadata,
  asignar_ultima_pagina,
}
use linuse_tp_os.Muse.Heap.Measures.{
  Mide, agregar_pagina-Mide, crecer-Mide, Mide-tam, TrasPieza, Ubicada, ubicar_metadata-Ubicada,
}
use linuse_tp_os.Muse.Segments.{tamanio_metadata, resta}
use linuse_tp_os.Muse.Alloc.{supera, asignar_paginas}

module _ (tam : ℕ) where
  -- The last piece, of what the last page leaves, is at an address that depends on the frame.
  abbrev pub Ultima : ℕ → HeapLista → Type 0
  Ultima t h = (h.is_free ≡ not (t == tam)) × (h.size ≡ tam - t)

  -- The segment counts one page more than it has.
  abbrev pub DeMas : ℕ → HeapLista → ℕ → Obra → Type 0
  DeMas t h n o =
      (u : HeapLista) × (k : ℕ) × (n ≤ k)
      × (k ≤ n + 1)
      × Ultima t u
      × Mide tam k ((k + 1) * tam % 2 ^ 32) (h ∷ u ∷ []) o

module _ (tam : ℕ) (chica : 5 ≤ tam) (cabe : tam < 2 ^ 31) where
  asignar_nueva_pagina-Mide :
      (n bytes : ℕ) (hs : List HeapLista) (o : Obra)
      → Mide tam n bytes hs o
      → Logra (Mide tam (n + 1) ((bytes + tam) % 2 ^ 32) hs) (asignar_nueva_pagina o)
  unfolding asignar_nueva_pagina
  asignar_nueva_pagina-Mide n bytes hs o h =
      let Q = Mide tam (n + 1) ((bytes + tam) % 2 ^ 32) hs in
      Logra->>= (Mide tam (n + 1) bytes hs) Q (agregar_pagina o) _
        (agregar_pagina-Mide tam n bytes hs o h)
        λ o1 x h1. rw (Mide-tam tam n bytes hs o h) (crecer-Mide tam (n + 1) bytes hs tam o1 h1)

  Mide-bytes :
      (n b b' : ℕ) (hs : List HeapLista) (o : Obra)
      → b ≡ b'
      → Mide tam n b hs o
      → Mide tam n b' hs o
  Mide-bytes n b b' hs o e m = subst (λ x. Mide tam n x hs o) e m

  una_mas : (n : ℕ) → (n * tam % 2 ^ 32 + tam) % 2 ^ 32 ≡ (n + 1) * tam % 2 ^ 32
  una_mas n = let e : (n + 1) * tam ≡ n * tam + tam = grind arith in rw e (omega arith)

  crecer-DeMas :
      (n t : ℕ) (h : HeapLista) (d : ℕ)
      → t ≤ tam
      → (partida : Bool) (o : Obra)
      → TrasPieza tam n
          (n * tam % 2 ^ 32)
          (h ∷ heap_en tam d (not (t == tam)) (resta tam t) ∷ [])
          partida
          o
      → Logra (DeMas tam t h n) (crecer tam o)
  unfolding heap_en resta
  crecer-DeMas n t h d l true o c =
      let u = heap_en tam d (not (t == tam)) (resta tam t) in
      let b = (n * tam % 2 ^ 32 + tam) % 2 ^ 32 in
      let x : resta tam t ≡ tam - t = omega arith in
      let y : (b + tam) % 2 ^ 32 ≡ (n + 1 + 1) * tam % 2 ^ 32 =
        ap (λ (z : ℕ). (z + tam) % 2 ^ 32) (una_mas n) ∙ una_mas (n + 1) in
      Logra-weaken (Mide tam (n + 1) ((b + tam) % 2 ^ 32) (h ∷ u ∷ [])) (DeMas tam t h n)
        (crecer tam o) (crecer-Mide tam (n + 1) b (h ∷ u ∷ []) tam o c)
        λ o' m. (
          u,
          n + 1,
          omega arith,
          omega arith,
          (refl, x),
          Mide-bytes (n + 1) _ _ (h ∷ u ∷ []) o' y m,
        )
  crecer-DeMas n t h d l false o c =
      let u = heap_en tam d (not (t == tam)) (resta tam t) in
      let b = n * tam % 2 ^ 32 in
      let x : resta tam t ≡ tam - t = omega arith in
      Logra-weaken (Mide tam n ((b + tam) % 2 ^ 32) (h ∷ u ∷ [])) (DeMas tam t h n) (crecer tam o)
        (crecer-Mide tam n b (h ∷ u ∷ []) tam o c)
        λ o' m. (
          u,
          n,
          omega arith,
          omega arith,
          (refl, x),
          Mide-bytes n _ _ (h ∷ u ∷ []) o' (una_mas n) m,
        )

  asignar_ultima_pagina-DeMas :
      (n t : ℕ) (h : HeapLista) (o : Obra)
      → t ≤ tam
      → Mide tam n (n * tam % 2 ^ 32) (h ∷ []) o
      → Logra (DeMas tam t h n) (asignar_ultima_pagina t o)
  unfolding asignar_ultima_pagina heap_en
  asignar_ultima_pagina-DeMas n t h o l e =
      let Q = DeMas tam t h n in
      let T = (o.0).tam_pagina in
      let b = n * tam % 2 ^ 32 in
      Logra-resto Q (segmento_en o) _ λ sg x.
        let k = length sg.tabla_paginas - 1 in
        Logra-desref Q (get_elem? sg.tabla_paginas k) _ λ pg y.
          Logra-desref Q pg.numero_frame _ λ i z.
            let d = (i * T + (resta T tamanio_metadata + t)) % 2 ^ 32 in
            let H = heap_en T d (not (t == T)) (resta T t) in
            Logra->>= (Ubicada tam n b (h ∷ []) H) Q
              (ubicar_metadata d (not (t == T)) (resta T t) k o) _
              (ubicar_metadata-Ubicada tam n b (h ∷ []) d (not (t == T)) (resta T t) k o e)
              λ (o1, p) w (q, c). cierra sg T d (Mide-tam tam n b (h ∷ []) o e) H.esta_partido o1 c
    where
      cierra :
          (sg : Segmento) (T d : ℕ)
          → T ≡ tam
          → (partida : Bool) (o1 : Obra)
          → TrasPieza tam n
              (n * tam % 2 ^ 32)
              (h ∷ heap_en T d (not (t == T)) (resta T t) ∷ [])
              partida
              o1
          → Logra (DeMas tam t h n) (crecer T o1)
      cierra sg T d r partida o1 =
          subst
            (λ (x : ℕ).
              TrasPieza tam n (n * tam % 2 ^ 32) (h ∷ heap_en x d (not (t == x)) (resta x t) ∷ [])
                partida o1
              → Logra (DeMas tam t h n) (crecer x o1))
            (sym r) (crecer-DeMas n t h d l partida o1)

  -- So many pages are to come, of which the last one brings a metadata; `t` bytes are left for it.
  pub asignar_paginas-DeMas :
      (k n t : ℕ) (h : HeapLista) (o : Obra)
      → 1 ≤ t
      → t ≤ tam
      → k * tam + t < 2 ^ 31
      → Mide tam n (n * tam % 2 ^ 32) (h ∷ []) o
      → Logra (DeMas tam t h (n + k)) (asignar_paginas (suc k) (k * tam + t) o)
  unfolding asignar_paginas supera resta
  asignar_paginas-DeMas zero n t h o p l c e =
      let r = Mide-tam tam n _ (h ∷ []) o e in
      let y : 0 * tam + t ≡ t = omega arith in
      let x : ltb (o.0).tam_pagina t ≡ false = ground arith in
      let z : n + 0 ≡ n = omega arith in
      rw (y, x, z)
        (Logra->>= (DeMas tam t h n) (DeMas tam t h n) (asignar_ultima_pagina t o) _
          (asignar_ultima_pagina-DeMas n t h o l e) λ o' a m. m)
  asignar_paginas-DeMas (suc k) n t h o p l c e =
      let r = Mide-tam tam n _ (h ∷ []) o e in
      let B = suc k * tam + t in
      let y : B ≡ k * tam + t + tam = grind arith in
      let x : ltb (o.0).tam_pagina B ≡ true = ground arith in
      let v : ltb B (2 ^ 31) ≡ true = ground arith in
      let w : resta B (o.0).tam_pagina ≡ k * tam + t = omega arith in
      let z : n + suc k ≡ n + 1 + k = omega arith in
      rw (x, v, w, z)
        (Logra->>= (Mide tam (n + 1) ((n * tam % 2 ^ 32 + tam) % 2 ^ 32) (h ∷ []))
          (DeMas tam t h (n + 1 + k)) (asignar_nueva_pagina o) _
          (asignar_nueva_pagina-Mide n _ (h ∷ []) o e)
          λ o' a m.
            asignar_paginas-DeMas k (n + 1) t h o' p l (omega arith)
              (Mide-bytes (n + 1) _ _ (h ∷ []) o' (una_mas n) m))
