-- ===== src/Muse/Tests/Segments.antt =====
-- Searches over two segments.
use linuse_tp_os.Base.{ℕ, Bool, true, false, none, some, List, [], ◌∷◌, arith}
use linuse_tp_os.Muse.Model.{HeapLista, Segmento}
use linuse_tp_os.Muse.Segments.{
  resta, segmento_que_contiene_direccion, buscar_segmento_con_tamanio_disponible,
}
use linuse_tp_os.Muse.Segments.Search.{
  Contiene, segmento_que_contiene_direccion-Contiene, Disponible, buscar_segmento-Disponible,
}

abbrev pieza : ℕ → Bool → ℕ → HeapLista
pieza direccion libre size = record {
  direccion_heap = direccion;
  is_free = libre;
  size = size;
  esta_partido = false;
  bytes_primera_pagina = 5;
}

abbrev un_segmento : ℕ → ℕ → ℕ → List HeapLista → Segmento
un_segmento id base tamanio metadatas = record {
  es_comun = true;
  file_path = none;
  id = id;
  base_logica = base;
  tamanio = tamanio;
  tabla_paginas = [];
  paginas_liberadas = 0;
  metadatas = metadatas;
}

abbrev segundo : Segmento
segundo = un_segmento 1 64 32 (pieza 0 false 10 ∷ pieza 15 true 12 ∷ [])

abbrev segmentos : List Segmento
segmentos = un_segmento 0 0 64 (pieza 0 false 59 ∷ []) ∷ segundo ∷ []

-- The address 70 is in the second.
segmento_que_contiene_direccion-Contiene_example : Contiene 70 segmentos (some segundo)
unfolding segmento_que_contiene_direccion resta
segmento_que_contiene_direccion-Contiene_example =
    segmento_que_contiene_direccion-Contiene segmentos 70 (omega arith)
      (omega arith, (omega arith, tt))

buscar_segmento-Disponible_example : Disponible 8 segmentos (some segundo)
unfolding buscar_segmento_con_tamanio_disponible
buscar_segmento-Disponible_example =
    buscar_segmento-Disponible segmentos 8 (omega arith)
      ((omega arith, tt), ((omega arith, (omega arith, tt)), tt))
