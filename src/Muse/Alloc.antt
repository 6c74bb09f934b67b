-- ===== src/Muse/Alloc.antt =====
-- The allocation of memory: `crearSegmento`, `extenderSegmento`, `esExtendible` and `musemalloc` of
-- Memoria/muse.c, with the address of the main memory as a parameter.
pub mod First
pub mod Shape
pub mod Pages
pub mod Repeated
use linuse_tp_os.Base.{
  ℕ, zero, suc, ◌+◌, ◌-◌, ◌*◌, ◌/◌, ◌%◌, ◌^◌, Bool, true, false, ◌&&◌, Option, none, some, List, [],
  ◌∷◌, ◌++◌, ltb, leb, ◌==◌, if◌then◌else◌, clave_nombre, clave_numero, Resultado, ok, ◌>>=◌,
  desref, length, get_elem?, set, any, lookup, insert,
}
use linuse_tp_os.Muse.Model.{HeapLista, Segmento, Muse}
use linuse_tp_os.Muse.Segments.{
  tamanio_metadata, resta, sirve, leb_int, sirve_int, segmento_de, obtener_tamanio_segmento,
}
use linuse_tp_os.Muse.Heap.{
  suelto, en_tabla, Obra, segmento_en, con_segmento, posicion_pagina, asignar_nueva_pagina,
  asignar_primera_pagina, asignar_ultima_pagina,
}

-- Pages of `tam` bytes for `bytes`: the quotient, rounded up.
unfoldable pub techo : ℕ → ℕ → ℕ
techo bytes tam = (bytes + tam - 1) / tam

-- The same of an `int`, which gives no page where it is negative.
unfoldable pub techo_int : ℕ → ℕ → ℕ
unfolding techo
techo_int bytes tam = if ltb bytes (2 ^ 31) then techo bytes tam else 0

-- `bytes > tam_pagina`, of an `int`.
unfoldable pub supera : ℕ → ℕ → Bool
supera bytes tam = ltb tam bytes && ltb bytes (2 ^ 31)

-- The loop that gives a segment its pages, of which so many are to come; the last brings a metadata.
unfoldable pub asignar_paginas : ℕ → ℕ → Obra → Resultado Obra
unfolding supera
asignar_paginas zero bytes o = ok o
asignar_paginas (suc faltan) bytes o =
    let tam = (o.0).tam_pagina in
    let sigue = asignar_nueva_pagina o >>= λ o'. asignar_paginas faltan (resta bytes tam) o' in
    let cierra = asignar_ultima_pagina bytes o >>= λ o'. asignar_paginas faltan 0 o' in
    if supera bytes tam then sigue else cierra

-- The last piece is given the size and is taken; the answer is the piece as it was.
unfoldable pub tomar_ultima_metadata : ℕ → Obra → Resultado (Obra × HeapLista)
unfolding segmento_en con_segmento
tomar_ultima_metadata tamanio o = do
  sg ← segmento_en o
  let k = length sg.metadatas - 1
  h ← desref (get_elem? sg.metadatas k)
  o' ←
      con_segmento
        (record sg {
          metadatas = set sg.metadatas k (record h { size = tamanio; is_free = false });
        })
        o
  ok (o', h)

-- What a free piece already has of the bytes.
unfoldable pub sin_lo_libre : ℕ → HeapLista → ℕ
unfolding resta
sin_lo_libre bytes h = if h.is_free then resta bytes h.size else bytes

-- A socket's table gets a segment at its end.
unfoldable pub agregar_segmento : ℕ → Segmento → Muse → Resultado Muse
agregar_segmento cliente sg m = do
  segmentos ← desref (lookup cliente m.tablas_segmentos)
  ok (record m { tablas_segmentos = insert cliente (segmentos ++ sg ∷ []) m.tablas_segmentos })

unfoldable pub extender_segmento : ℕ → Obra → Resultado Obra
unfolding tomar_ultima_metadata sin_lo_libre techo_int asignar_paginas
extender_segmento tamanio o = do
  (o1, h) ← tomar_ultima_metadata tamanio o
  let bytes = sin_lo_libre ((tamanio + tamanio_metadata) % 2 ^ 32) h
  asignar_paginas (techo_int bytes (o.0).tam_pagina) bytes o1

-- A segment at an index of the table can grow if it is the last one, or if as many of its pages were
-- freed as it needs. It is not a mapped one.
unfoldable pub es_extendible : List Segmento → ℕ → ℕ → ℕ → Resultado Bool
unfolding techo resta
es_extendible segmentos j tamanio tam = do
  ultimo ← desref (get_elem? segmentos (length segmentos - 1))
  sg ← desref (get_elem? segmentos j)
  if sg.es_comun && (ultimo.id == sg.id) then ok true else (do
    h ← desref (get_elem? sg.metadatas (length sg.metadatas - 1))
    let necesarias = techo ((resta tamanio h.size + tamanio_metadata) % 2 ^ 32) tam
    ok (sg.es_comun && leb necesarias sg.paginas_liberadas))

-- The first segment that can grow, from an index on over so many.
unfoldable pub buscar_extendible : ℕ → ℕ → List Segmento → ℕ → ℕ → Resultado (Option ℕ)
unfolding es_extendible
buscar_extendible zero j segmentos tamanio tam = ok none
buscar_extendible (suc faltan) j segmentos tamanio tam = do
  b ← es_extendible segmentos j tamanio tam
  let resto = buscar_extendible faltan (suc j) segmentos tamanio tam
  if b then ok (some j) else resto

-- Where the data of a piece begins, counted from the start of the main memory. The address of a piece is
-- an `int`, taken to be below 2 ^ 31.
unfoldable pub comienzo_datos : HeapLista → Obra → Resultado (Obra × ℕ)
comienzo_datos h o = do
  let tam = (o.0).tam_pagina
  let primera = h.direccion_heap / tam
  let desde = h.direccion_heap % tam
  if h.esta_partido
      then (do
        (o', p) ← posicion_pagina (suc primera) o
        ok (o', p + (tamanio_metadata - (tam - desde))))
      else (do (o', p) ← posicion_pagina primera o; ok (o', p + (desde + tamanio_metadata)))

-- The first free piece of at least the size.
unfoldable pub primera_libre : List HeapLista → ℕ → Option HeapLista
primera_libre [] tamanio = none
primera_libre (h ∷ hs) tamanio = if sirve tamanio h then some h else primera_libre hs tamanio

unfoldable pub indice_de_segmento : ℕ → List Segmento → ℕ → Option ℕ
unfolding leb_int
indice_de_segmento j [] tamanio = none
indice_de_segmento j (sg ∷ resto) tamanio =
    if any (sirve_int tamanio) sg.metadatas
    then some j
    else indice_de_segmento (suc j) resto tamanio

module _ (memoria_principal : ℕ) where
  -- The segment is given its pages before it is added to the table, at whose end it then stands.
  unfoldable pub crear_segmento : ℕ → ℕ → Muse → Resultado (Muse × ℕ)
  crear_segmento tamanio cliente m = do
    segmentos ← desref (lookup cliente m.tablas_segmentos)
    let n = length segmentos
    base ←
        (if n == 0 then ok memoria_principal else (do
          t ← obtener_tamanio_segmento (n - 1) cliente m
          ok ((t + 1 + memoria_principal) % 2 ^ 32)))
    let bytes = (tamanio + 2 * tamanio_metadata) % 2 ^ 32
    (o1, partida) ← asignar_primera_pagina tamanio (
      m,
      suelto (record {
        es_comun = true;
        file_path = none;
        id = n;
        base_logica = base;
        tamanio = 0;
        tabla_paginas = [];
        paginas_liberadas = 0;
        metadatas = [];
      }),
    )
    let primeras = if partida then 2 else 1
    (o2, h) ← tomar_ultima_metadata tamanio o1
    (m3, s) ←
        asignar_paginas (techo bytes m.tam_pagina - primeras)
          (sin_lo_libre (resta bytes (primeras * m.tam_pagina)) h) o2
    sg ← segmento_en (m3, s)
    m4 ← agregar_segmento cliente sg m3
    ok (m4, n)

  -- The address of a position of the main memory.
  unfoldable pub direccion_de : Obra × ℕ → Muse × ℕ
  direccion_de (o, p) = (o.0, (memoria_principal + p) % 2 ^ 32)

  -- The start of the data of a piece of a segment of the table: of the piece at an index.
  unfoldable pub datos_en :
      ℕ → ℕ → (List HeapLista → Option HeapLista) → Muse → Resultado (Muse × ℕ)
  unfolding segmento_de
  datos_en cliente j elegir m = do
    sg ← segmento_de cliente j m
    h ← desref (elegir sg.metadatas)
    r ← comienzo_datos h (m, en_tabla cliente j)
    ok (direccion_de r)

  unfoldable pub malloc_nuevo : ℕ → ℕ → Muse → Resultado (Muse × ℕ)
  unfolding crear_segmento datos_en
  malloc_nuevo tamanio cliente m = do
    (m', j) ← crear_segmento tamanio cliente m
    datos_en cliente j (λ hs. get_elem? hs 0) m'

  -- In the first segment of a process the data is taken to begin in the first page.
  unfoldable pub malloc_primero : ℕ → ℕ → Muse → Resultado (Muse × ℕ)
  unfolding crear_segmento posicion_pagina direccion_de
  malloc_primero tamanio cliente m = do
    (m', j) ← crear_segmento tamanio cliente m
    (o, p) ← posicion_pagina 0 (m', en_tabla cliente j)
    ok (direccion_de (o, p + tamanio_metadata))

  -- The data is that of the last piece but one, which was the last before the segment grew.
  unfoldable pub malloc_extendiendo : ℕ → ℕ → ℕ → Muse → Resultado (Muse × ℕ)
  unfolding extender_segmento datos_en
  malloc_extendiendo tamanio cliente j m = do
    (m', s) ← extender_segmento tamanio (m, en_tabla cliente j)
    datos_en cliente j (λ hs. if ltb (length hs) 2 then none else get_elem? hs (length hs - 2)) m'

  unfoldable pub malloc_sin_libre : ℕ → ℕ → List Segmento → Muse → Resultado (Muse × ℕ)
  unfolding buscar_extendible malloc_extendiendo malloc_nuevo
  malloc_sin_libre tamanio cliente segmentos m = do
    extendible ← buscar_extendible (length segmentos) 0 segmentos tamanio m.tam_pagina
    elim extendible [
      | some j ↦ malloc_extendiendo tamanio cliente j m
      | none ↦ malloc_nuevo tamanio cliente m
    ]

  -- With no table the answer is NULL. A free piece that is found is not marked as taken.
  unfoldable pub musemalloc : ℕ → ℕ → Muse → Resultado (Muse × ℕ)
  unfolding malloc_primero indice_de_segmento primera_libre datos_en malloc_sin_libre
  musemalloc tamanio cliente m = elim (lookup cliente m.tablas_segmentos) [
    | none ↦ ok (m, 0)
    | some [] ↦ malloc_primero tamanio cliente m
    | some (sg ∷ sgs) ↦
        elim (indice_de_segmento 0 (sg ∷ sgs) ((tamanio + tamanio_metadata) % 2 ^ 32)) [
          | some j ↦ datos_en cliente j (λ hs. primera_libre hs tamanio) m
          | none ↦ malloc_sin_libre tamanio cliente (sg ∷ sgs) m
        ]
  ]
