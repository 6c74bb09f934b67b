-- ===== src/Muse/Segments.antt =====
-- Where an address or a free piece of a segment is found: `segmentoQueContieneDireccion`,
-- `idSegmentoQueContieneDireccion`, `paginaQueContieneDireccion`, `buscarSegmentoConTamanioDisponible`,
-- `retornarMetadataTamanioLibre`, `poseeTamanioLibreSegmento`, `obtenerTamanioSegmento` and
-- `espacioPaginas` of Memoria/muse.c. NULL and -1 are `none`.
pub mod Search
use linuse_tp_os.Base.{
  ℕ, ◌+◌, ◌-◌, ◌*◌, ◌/◌, ◌%◌, ◌^◌, Bool, ◌&&◌, Option, none, some, List, [], ◌∷◌, ltb, leb,
  if◌then◌else◌, clave_nombre, clave_numero, Resultado, ok, ◌>>=◌, desref, length, get_elem?, any,
  lookup,
}
use linuse_tp_os.Muse.Model.{Pagina, HeapLista, Segmento, Muse}

-- `sizeof(struct HeapMetadata)`, which is packed.
abbrev pub tamanio_metadata : ℕ
tamanio_metadata = 5

-- The difference of two `uint32_t`.
unfoldable pub resta : ℕ → ℕ → ℕ
resta a b = (a + 2 ^ 32 - b) % 2 ^ 32

unfoldable pub segmento_que_contiene_direccion : List Segmento → ℕ → Option Segmento
unfolding resta
segmento_que_contiene_direccion [] direccion = none
segmento_que_contiene_direccion (s ∷ ss) direccion =
    if ltb (resta direccion s.base_logica) s.tamanio
    then some s
    else segmento_que_contiene_direccion ss direccion

unfoldable pub id_segmento_que_contiene_direccion : List Segmento → ℕ → Option ℕ
unfolding resta
id_segmento_que_contiene_direccion [] direccion = none
id_segmento_que_contiene_direccion (s ∷ ss) direccion =
    if ltb (resta direccion s.base_logica) s.tamanio
    then some s.id
    else id_segmento_que_contiene_direccion ss direccion

unfoldable pub pagina_que_contiene_direccion : Segmento → ℕ → ℕ → Option Pagina
unfolding resta
pagina_que_contiene_direccion s direccion tamanio_pag =
    get_elem? s.tabla_paginas (resta direccion s.base_logica / tamanio_pag)

abbrev pub sirve : ℕ → HeapLista → Bool
sirve tamanio h = h.is_free && leb tamanio h.size

-- The comparison of two `int`, given as patterns of 32 bits.
unfoldable pub leb_int : ℕ → ℕ → Bool
leb_int a b = leb ((a + 2 ^ 31) % 2 ^ 32) ((b + 2 ^ 31) % 2 ^ 32)

-- The same test where the size is an `int`: `sirve` is that of an `uint32_t`.
abbrev pub sirve_int : ℕ → HeapLista → Bool
sirve_int tamanio h = h.is_free && leb_int tamanio h.size

unfoldable pub buscar_segmento_con_tamanio_disponible : List Segmento → ℕ → Option Segmento
unfolding leb_int
buscar_segmento_con_tamanio_disponible [] tamanio = none
buscar_segmento_con_tamanio_disponible (s ∷ ss) tamanio =
    if any (sirve_int tamanio) s.metadatas
    then some s
    else buscar_segmento_con_tamanio_disponible ss tamanio

unfoldable pub metadata_libre : List HeapLista → ℕ → Option ℕ
metadata_libre [] tamanio = none
metadata_libre (h ∷ hs) tamanio =
    if sirve tamanio h
    then some (h.direccion_heap + tamanio_metadata)
    else metadata_libre hs tamanio

unfoldable pub retornar_metadata_tamanio_libre : Segmento → ℕ → Option ℕ
unfolding metadata_libre
retornar_metadata_tamanio_libre s tamanio = metadata_libre s.metadatas tamanio

-- The size is to be at most `tamanio`.
unfoldable pub posee_tamanio_libre_segmento : Segmento → ℕ → Bool
posee_tamanio_libre_segmento s tamanio = any (λ h. h.is_free && leb h.size tamanio) s.metadatas

-- The segment of that index in the table of the client.
unfoldable pub segmento_de : ℕ → ℕ → Muse → Resultado Segmento
segmento_de cliente id m = do
  segmentos ← desref (lookup cliente m.tablas_segmentos)
  desref (get_elem? segmentos id)

unfoldable pub obtener_tamanio_segmento : ℕ → ℕ → Muse → Resultado ℕ
unfolding segmento_de
obtener_tamanio_segmento id cliente m = do s ← segmento_de cliente id m; ok s.tamanio

unfoldable pub espacio_paginas : ℕ → ℕ → Muse → Resultado ℕ
unfolding segmento_de
espacio_paginas cliente id m = do
  s ← segmento_de cliente id m
  ok (length s.tabla_paginas * m.tam_pagina)
