-- ===== src/Muse/Heap.antt =====
-- The pages and the pieces of a segment: `obtenerPosicionMemoriaPagina`, `obtenerIndicePagina`,
-- `asignarNuevaPagina`, `ubicarMetadataYHeapLista`, `asignarPrimeraPaginaSegmento` and
-- `asignarUltimaPaginaSegmento` of Memoria/muse.c. An `int` that the code computes from a
-- `uint32_t` is kept as its 32 bits.
pub mod Sites
pub mod Measures
pub mod Present
use linuse_tp_os.Base.{
  ℕ, suc, ◌+◌, ◌-◌, ◌*◌, ◌%◌, ◌^◌, Bool, true, false, ◌&&◌, not, Option, none, some, List, [], ◌∷◌,
  ◌++◌, ltb, ◌==◌, if◌then◌else◌, clave_nombre, clave_numero, Resultado, ok, ◌>>=◌, desref,
  en_arreglo, length, get_elem?, set, lookup, insert,
}
use linuse_tp_os.Muse.Model.{Pagina, HeapLista, Segmento, Muse}
use linuse_tp_os.Muse.Frames.{buscar_frame_libre}
use linuse_tp_os.Muse.Segments.{tamanio_metadata, resta, segmento_de}
use linuse_tp_os.Muse.Swap.{asignar_un_frame}

-- Where a segment is kept: the one that `crearSegmento` builds is in no table yet, so that no search
-- for the page of a frame meets its pages; any other is at an index of the table of a socket.
pub data Sitio : Type 0 where
  suelto : Segmento → Sitio
  en_tabla : ℕ → ℕ → Sitio

abbrev pub Obra : Type 0
Obra = Muse × Sitio

unfoldable pub segmento_en : Obra → Resultado Segmento
unfolding segmento_de
segmento_en (m, suelto sg) = ok sg
segmento_en (m, en_tabla socket j) = segmento_de socket j m

unfoldable pub con_segmento : Segmento → Obra → Resultado Obra
con_segmento sg (m, suelto antes) = ok (m, suelto sg)
con_segmento sg (m, en_tabla socket j) = do
  segmentos ← desref (lookup socket m.tablas_segmentos)
  ok (
    record m { tablas_segmentos = insert socket (set segmentos j sg) m.tablas_segmentos },
    en_tabla socket j,
  )

-- The page comes in from swap: its bit is cleared, and it gets the first free frame, which stays
-- marked as it was.
unfoldable pub traer_pagina : ℕ → Pagina → ℕ → Obra → Resultado (Obra × Pagina)
unfolding buscar_frame_libre segmento_en con_segmento
traer_pagina k pg bit (m, s) = do
  i ← en_arreglo (buscar_frame_libre m.bitmap_frames)
  let pg' = record pg { presencia = 1; numero_frame = some i; indice_swap = none }
  sg ← segmento_en (m, s)
  o ←
      con_segmento (record sg { tabla_paginas = set sg.tabla_paginas k pg' })
        (record m { bitmap_swap = set m.bitmap_swap bit false }, s)
  ok (o, pg')

-- A page that is not present and is in swap comes in.
unfoldable pub presentar : ℕ → Pagina → Obra → Resultado (Obra × Pagina)
unfolding traer_pagina
presentar k pg o =
    if pg.presencia == 0
    then elim pg.indice_swap [ none ↦ ok (o, pg) | some bit ↦ traer_pagina k pg bit o ]
    else ok (o, pg)

-- `obtenerPosicionMemoriaPagina` of the page at an index. The position is counted from the start of the
-- main memory; that of a page with no frame lies outside it.
unfoldable pub posicion_pagina : ℕ → Obra → Resultado (Obra × ℕ)
unfolding segmento_en presentar
posicion_pagina k o = do
  sg ← segmento_en o
  pg ← desref (get_elem? sg.tabla_paginas k)
  (o', pg') ← presentar k pg o
  i ← en_arreglo pg'.numero_frame
  ok (o', i * (o.0).tam_pagina)

-- `segmento->tamanio += bytes`.
unfoldable pub crecer : ℕ → Obra → Resultado Obra
unfolding segmento_en con_segmento
crecer bytes o = do
  sg ← segmento_en o
  con_segmento (record sg { tamanio = (sg.tamanio + bytes) % 2 ^ 32 }) o

-- A frame that is taken is marked again by the code that gets it.
unfoldable pub marcar_tomado : ℕ → Muse → Resultado Muse
marcar_tomado i m = do
  f ← desref (get_elem? m.bitmap_frames i)
  ok (record m {
    bitmap_frames =
        set m.bitmap_frames i (record f { modificado = 1; uso = 1; esta_libre = false });
  })

abbrev pub pagina_nueva : ℕ → Pagina
pagina_nueva i = record { presencia = 1; numero_frame = some i; indice_swap = none }

-- A new page with a frame of its own, at the end of the segment.
unfoldable pub agregar_pagina : Obra → Resultado Obra
unfolding asignar_un_frame marcar_tomado segmento_en con_segmento
agregar_pagina (m, s) = do
  (m1, i) ← asignar_un_frame m
  m2 ← marcar_tomado i m1
  sg ← segmento_en (m2, s)
  con_segmento (record sg { tabla_paginas = sg.tabla_paginas ++ pagina_nueva i ∷ [] }) (m2, s)

unfoldable pub asignar_nueva_pagina : Obra → Resultado Obra
unfolding agregar_pagina crecer
asignar_nueva_pagina o = do o1 ← agregar_pagina o; crecer (o.0).tam_pagina o1

-- `ubicacionHeap % tamanio_pag`, which keeps the sign of an address.
unfoldable pub desplazamiento : ℕ → ℕ → ℕ
unfolding resta
desplazamiento tam direccion =
    if ltb direccion (2 ^ 31) then direccion % tam else resta 0 (resta 0 direccion % tam)

-- The bytes of its page from an address on; a metadata is split where they are fewer than its size.
unfoldable pub bytes_restantes : ℕ → ℕ → ℕ
unfolding resta desplazamiento
bytes_restantes tam direccion = resta tam (desplazamiento tam direccion)

unfoldable pub queda_partida : ℕ → ℕ → Bool
unfolding bytes_restantes
queda_partida tam direccion = ltb (bytes_restantes tam direccion) tamanio_metadata

unfoldable pub heap_en : ℕ → ℕ → Bool → ℕ → HeapLista
unfolding queda_partida bytes_restantes
heap_en tam direccion libre size = record {
  direccion_heap = direccion;
  is_free = libre;
  size = size;
  esta_partido = queda_partida tam direccion;
  bytes_primera_pagina =
      if queda_partida tam direccion then bytes_restantes tam direccion else tamanio_metadata;
}

-- `framePrimeraPagina`, by the number of the frame without a look at the presence of the page.
unfoldable pub usar_frame_de : ℕ → Obra → Resultado Obra
unfolding segmento_en
usar_frame_de k (m, s) = do
  sg ← segmento_en (m, s)
  pg ← desref (get_elem? sg.tabla_paginas k)
  i ← desref pg.numero_frame
  f ← desref (get_elem? m.bitmap_frames i)
  ok (record m { bitmap_frames = set m.bitmap_frames i (record f { modificado = 1; uso = 1 }) }, s)

unfoldable pub agregar_metadata : HeapLista → Obra → Resultado Obra
unfolding segmento_en con_segmento
agregar_metadata h o = do
  sg ← segmento_en o
  con_segmento (record sg { metadatas = sg.metadatas ++ h ∷ [] }) o

-- The page for the rest of a split metadata. The position of the first page is asked for once more.
unfoldable pub agregar_segunda_pagina : ℕ → Obra → Resultado Obra
unfolding agregar_pagina crecer posicion_pagina segmento_en
agregar_segunda_pagina k o = do
  sg ← segmento_en o
  o1 ← agregar_pagina o
  o2 ← crecer (o.0).tam_pagina o1
  (o3, segunda) ← posicion_pagina (length sg.tabla_paginas) o2
  (o4, primera) ← posicion_pagina k o3
  ok o4

-- `ubicarMetadataYHeapLista`, for the page at index `k`; the answer is whether the metadata was split.
unfoldable pub ubicar_metadata : ℕ → Bool → ℕ → ℕ → Obra → Resultado (Obra × Bool)
ubicar_metadata direccion libre size k o = do
  o1 ← usar_frame_de k o
  (o2, primera) ← posicion_pagina k o1
  let h = heap_en (o.0).tam_pagina direccion libre size
  o3 ← agregar_metadata h o2
  o4 ← (if h.esta_partido then agregar_segunda_pagina k o3 else ok o3)
  ok (o4, h.esta_partido)

-- `memcmp` of two pages.
unfoldable pub igual_indice : Option ℕ → Option ℕ → Bool
igual_indice none none = true
igual_indice none (some j) = false
igual_indice (some i) none = false
igual_indice (some i) (some j) = i == j

unfoldable pub indice_desde : ℕ → List Pagina → Pagina → Option ℕ
unfolding igual_indice
indice_desde i [] pg = none
indice_desde i (q ∷ qs) pg =
    if pg.presencia == q.presencia
      && igual_indice pg.numero_frame q.numero_frame
      && igual_indice pg.indice_swap q.indice_swap
    then some i
    else indice_desde (suc i) qs pg

unfoldable pub obtener_indice_pagina : List Pagina → Pagina → Option ℕ
unfolding indice_desde
obtener_indice_pagina = indice_desde 0

-- `asignarPrimeraPaginaSegmento`, for a segment with no pages.
unfoldable pub asignar_primera_pagina : ℕ → Obra → Resultado (Obra × Bool)
unfolding segmento_en obtener_indice_pagina
asignar_primera_pagina tamanio o = do
  o1 ← agregar_pagina o
  sg ← segmento_en o1
  pg ← desref (get_elem? sg.tabla_paginas (length sg.tabla_paginas - 1))
  k ← en_arreglo (obtener_indice_pagina sg.tabla_paginas pg)
  (o2, partida) ← ubicar_metadata (k * (o.0).tam_pagina) false tamanio 0 o1
  o3 ← crecer (if partida then 2 * (o.0).tam_pagina else (o.0).tam_pagina) o2
  ok (o3, partida)

-- `asignarUltimaPaginaSegmento`. The address is that of the frame of the last page.
unfoldable pub asignar_ultima_pagina : ℕ → Obra → Resultado Obra
unfolding segmento_en
asignar_ultima_pagina tamanio o = do
  let tam = (o.0).tam_pagina
  sg ← segmento_en o
  let k = length sg.tabla_paginas - 1
  pg ← desref (get_elem? sg.tabla_paginas k)
  i ← desref pg.numero_frame
  let direccion = (i * tam + (resta tam tamanio_metadata + tamanio)) % 2 ^ 32
  (o1, partida) ← ubicar_metadata direccion (not (tamanio == tam)) (resta tam tamanio) k o
  crecer tam o1
