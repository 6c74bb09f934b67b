-- ===== src/Muse/Free.antt =====
-- Memory that is given back: `musefree`, `unificarHeaders`, `hayAlgunaMetadataOcupada`,
-- `eliminarPaginasLibresSegmento`, `musemap`, `muse_unmap` and `museclose` of Memoria/muse.c.
pub mod First
pub mod Piece
use linuse_tp_os.Base.{
  ℕ, zero, suc, ◌+◌, ◌-◌, ◌*◌, ◌/◌, ◌%◌, ◌^◌, String, Bool, true, false, ◌&&◌, not, Option, none,
  some, List, [], ◌∷◌, ◌++◌, ltb, ◌==◌, if◌then◌else◌, clave_nombre, clave_numero, ℤ, pos, negsuc,
  puntero_nulo, indeterminado, Resultado, ok, fallo, ◌>>=◌, desref, en_arreglo, length, get_elem?,
  set, any, lookup, insert, erase,
}
use linuse_tp_os.Muse.Model.{Pagina, HeapLista, Segmento, Muse}
use linuse_tp_os.Muse.Segments.{
  tamanio_metadata, resta, id_segmento_que_contiene_direccion, segmento_de,
  obtener_tamanio_segmento,
}
use linuse_tp_os.Muse.Heap.{
  en_tabla, Obra, segmento_en, con_segmento, posicion_pagina, obtener_indice_pagina,
}
use linuse_tp_os.Muse.Alloc.{agregar_segmento}

-- The index of the segment that `segmentoQueContieneDireccion` finds, from `j` on.
unfoldable pub indice_que_contiene : ℕ → List Segmento → ℕ → Option ℕ
unfolding resta
indice_que_contiene j [] direccion = none
indice_que_contiene j (s ∷ ss) direccion =
    if ltb (resta direccion s.base_logica) s.tamanio
    then some j
    else indice_que_contiene (suc j) ss direccion

-- The address of a piece within its segment, from its page and its place there, after the metadata.
unfoldable pub fin_de_metadata : ℕ → HeapLista → ℕ
fin_de_metadata tam h =
    (h.direccion_heap / tam * tam + h.direccion_heap % tam + tamanio_metadata) % 2 ^ 32

-- The index of the piece whose data begins at an address of the segment.
unfoldable pub indice_de_metadata : ℕ → ℕ → ℕ → List HeapLista → Option ℕ
unfolding fin_de_metadata
indice_de_metadata tam direccion i [] = none
indice_de_metadata tam direccion i (h ∷ hs) =
    if fin_de_metadata tam h == direccion
    then some i
    else indice_de_metadata tam direccion (suc i) hs

-- The metadata is written back to the page before the one of the address, and where it is split to that
-- one; `list_get` of the index before 0 is NULL.
unfoldable pub escribir_metadata : HeapLista → ℕ → Obra → Resultado Obra
escribir_metadata h zero o = fallo puntero_nulo
escribir_metadata h (suc k) o = do
  (o1, p) ← posicion_pagina k o
  (o2, q) ← posicion_pagina k o1
  if h.esta_partido then (do (o3, r) ← posicion_pagina (suc k) o2; ok o3) else ok o2

-- The piece at an index is marked as free; where no piece was found, the pointer to it was never set.
unfoldable pub marcar_libre : Option ℕ → Segmento → ℕ → Obra → Resultado (Obra × ℤ)
marcar_libre none sg k o = fallo indeterminado
marcar_libre (some i) sg k o = do
  h ← desref (get_elem? sg.metadatas i)
  o1 ← con_segmento (record sg { metadatas = set sg.metadatas i (record h { is_free = true }) }) o
  o2 ← escribir_metadata h k o1
  ok (o2, if h.size == 4294967295 then negsuc 0 else pos 0)

unfoldable pub liberar_metadata : ℕ → ℕ → Obra → Resultado (Obra × ℤ)
liberar_metadata direccion k o = do
  sg ← segmento_en o
  marcar_libre (indice_de_metadata (o.0).tam_pagina direccion 0 sg.metadatas) sg k o

-- The page of the address is looked for by its contents, and its position is asked for. With no pages
-- no page is compared.
unfoldable pub liberar_con_paginas : List Pagina → ℕ → Obra → Resultado (Muse × ℤ)
liberar_con_paginas [] direccion o = ok (o.0, negsuc 0)
liberar_con_paginas (pg ∷ pgs) direccion o = do
  let n = direccion / (o.0).tam_pagina
  pagina ← desref (get_elem? (pg ∷ pgs) n)
  k ← en_arreglo (obtener_indice_pagina (pg ∷ pgs) pagina)
  (o1, p) ← posicion_pagina n o
  (o2, z) ← liberar_metadata direccion k o1
  ok (o2.0, z)

unfoldable pub liberar_en : ℕ → ℕ → ℕ → Muse → Resultado (Muse × ℤ)
liberar_en cliente j dir m = do
  sg ← segmento_de cliente j m
  if sg.es_comun
      then liberar_con_paginas sg.tabla_paginas (resta dir sg.base_logica) (m, en_tabla cliente j)
      else ok (m, negsuc 0)

unfoldable pub musefree : ℕ → ℕ → Muse → Resultado (Muse × ℤ)
musefree cliente dir m = elim (lookup cliente m.tablas_segmentos) [
  | none ↦ ok (m, negsuc 0)
  | some segmentos ↦ elim (indice_que_contiene 0 segmentos dir) [
    | none ↦ ok (m, negsuc 0)
    | some j ↦ liberar_en cliente j dir m
  ]
]

-- The loop of `unificarHeaders`: the piece that others are added to, those passed since, and the rest.
-- A piece that is added is removed, and the one after it is passed over. The last is never added.
unfoldable pub unificar : HeapLista → List HeapLista → List HeapLista → List HeapLista
unificar h pasadas [] = h ∷ pasadas
unificar h pasadas (s ∷ []) = h ∷ (pasadas ++ s ∷ [])
unificar h pasadas (s ∷ t ∷ resto) =
    let junta =
      unificar (record h { size = (h.size + s.size) % 2 ^ 32 }) (pasadas ++ t ∷ []) resto in
    let sigue = h ∷ (pasadas ++ unificar s [] (t ∷ resto)) in
    if h.is_free && s.is_free then junta else sigue

unfoldable pub unificar_metadatas : List HeapLista → List HeapLista
unfolding unificar
unificar_metadatas [] = []
unificar_metadatas (h ∷ hs) = unificar h [] hs

unfoldable pub unificar_headers : ℕ → ℕ → Muse → Resultado Muse
unfolding segmento_de con_segmento unificar_metadatas
unificar_headers j cliente m = do
  sg ← segmento_de cliente j m
  o ←
      con_segmento (record sg { metadatas = unificar_metadatas sg.metadatas })
        (m, en_tabla cliente j)
  ok o.0

unfoldable pub hay_alguna_metadata_ocupada : ℕ → Segmento → ℕ → Bool
hay_alguna_metadata_ocupada tam sg n =
    any (λ h. (h.direccion_heap / tam == n) && not h.is_free) sg.metadatas

-- How many of the first `n` pages, from the last of them down, have no taken piece.
unfoldable pub paginas_libres : ℕ → Segmento → ℕ → ℕ
unfolding hay_alguna_metadata_ocupada
paginas_libres tam sg zero = 0
paginas_libres tam sg (suc n) =
    let resto = suc (paginas_libres tam sg n) in
    if hay_alguna_metadata_ocupada tam sg n then 0 else resto

-- All pages but the first are removed, however many are counted.
unfoldable pub sin_paginas_libres : ℕ → Segmento → Segmento
unfolding paginas_libres resta
sin_paginas_libres tam sg =
    let n = paginas_libres tam sg (length sg.tabla_paginas) in
    record sg {
      paginas_liberadas = sg.paginas_liberadas + n;
      tamanio = resta sg.tamanio (n * tam % 2 ^ 32);
      tabla_paginas = elim sg.tabla_paginas [ [] ↦ [] | pg ∷ pgs ↦ pg ∷ [] ];
    }

-- With no table, or no segment at the index, the answer is NULL and nothing changes.
unfoldable pub eliminar_paginas_libres_segmento : ℕ → ℕ → Muse → Muse
unfolding segmento_de con_segmento sin_paginas_libres
eliminar_paginas_libres_segmento cliente j m = elim (segmento_de cliente j m) [
  | fallo x ↦ m
  | ok sg ↦ elim (con_segmento (sin_paginas_libres m.tam_pagina sg) (m, en_tabla cliente j)) [
    | fallo x ↦ m
    | ok o ↦ o.0
  ]
]

-- The segment gets no page, and the fields that it does not set are those of the memory that `malloc`
-- gave for it.
unfoldable pub musemap : Segmento → String → ℕ → Muse → Resultado Muse
unfolding obtener_tamanio_segmento agregar_segmento
musemap sin_iniciar path cliente m = do
  segmentos ← desref (lookup cliente m.tablas_segmentos)
  let n = length segmentos
  t ← (if n == 0 then fallo puntero_nulo else obtener_tamanio_segmento (n - 1) cliente m)
  let sg = record sin_iniciar {
    es_comun = false;
    file_path = some path;
    id = suc n;
    base_logica = (t + 1) % 2 ^ 32;
    tabla_paginas = [];
  }
  agregar_segmento cliente sg m

-- `list_remove`.
unfoldable pub sin_indice {ℓ} : {A : Type ℓ} → ℕ → List A → List A
sin_indice i [] = []
sin_indice zero (x ∷ xs) = xs
sin_indice (suc i) (x ∷ xs) = x ∷ sin_indice i xs

-- The id of a segment is taken for its index.
unfoldable pub muse_unmap : ℕ → ℕ → Muse → Resultado (Muse × ℤ)
unfolding id_segmento_que_contiene_direccion sin_indice
muse_unmap dir cliente m = do
  segmentos ← desref (lookup cliente m.tablas_segmentos)
  id ← desref (id_segmento_que_contiene_direccion segmentos dir)
  sg ← desref (get_elem? segmentos id)
  let quedan = insert cliente (sin_indice id segmentos) m.tablas_segmentos
  if sg.es_comun then ok (m, negsuc 0) else ok (record m { tablas_segmentos = quedan }, pos 0)

-- `encontrado` is what `list_get` finds when it is given the dictionary for a list and the text of the
-- socket for an index.
unfoldable pub museclose : Bool → ℕ → Muse → Muse
museclose encontrado cliente m =
    if encontrado then record m { tablas_segmentos = erase cliente m.tablas_segmentos } else m
