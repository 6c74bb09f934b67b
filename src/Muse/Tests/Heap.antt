-- ===== src/Muse/Tests/Heap.antt =====
-- Allocations of a process with a small memory.
use linuse_tp_os.Base.{
  ◌≡◌, refl, true, false, none, some, List, [], ◌∷◌, arith, ◌==◌, if◌then◌else◌, clave_nombre,
  clave_numero, negsuc, puntero_nulo, ok, fallo, Logra, Garantiza, lookup,
}
use linuse_tp_os.Muse.Model.{Frame, Segmento, Muse}
use linuse_tp_os.Muse.Alloc.{crear_segmento, musemalloc}
use linuse_tp_os.Muse.Alloc.Repeated.{dos_direcciones, musemalloc-dos_direcciones}
use linuse_tp_os.Muse.Alloc.Shape.{ConSegmento, crear_segmento-ConSegmento}
use linuse_tp_os.Muse.Free.{musefree}
use linuse_tp_os.Muse.Free.First.{musefree-pieza_primera}
use linuse_tp_os.Muse.Free.Piece.{RespondeMusefree, musefree-Responde}
use linuse_tp_os.Muse.Frames.{buscar_frame_libre}

abbrev libre : Frame
libre = record { modificado = 0; uso = 0; esta_libre = true }

abbrev ocupado : Frame
ocupado = record { modificado = 1; uso = 1; esta_libre = false }

-- The process 5, with these segments.
abbrev con_segmentos : List Frame → List Segmento → Muse
con_segmentos fs ss = record {
  cantidad_frames = 3;
  puntero_clock = 0;
  bitmap_frames = fs;
  bitmap_swap = false ∷ false ∷ [];
  tablas_segmentos = (5, ss) ∷ [];
  client_socket = 5 ∷ [];
  tam_pagina = 32;
}

abbrev sin_segmentos : Muse
sin_segmentos = con_segmentos (libre ∷ libre ∷ libre ∷ []) []

abbrev con_ocupado : Muse
con_ocupado = con_segmentos (ocupado ∷ libre ∷ libre ∷ []) []

-- A segment of two pages, with a piece whose data begins in the second.
abbrev con_pieza : Muse
con_pieza = con_segmentos (ocupado ∷ ocupado ∷ libre ∷ []) (
    record {
      es_comun = true;
      file_path = none;
      id = 0;
      base_logica = 1000;
      tamanio = 64;
      tabla_paginas =
          record { presencia = 1; numero_frame = some 0; indice_swap = none }
          ∷ record { presencia = 1; numero_frame = some 1; indice_swap = none }
          ∷ [];
      paginas_liberadas = 0;
      metadatas =
          record {
            direccion_heap = 35;
            is_free = false;
            size = 20;
            esta_partido = false;
            bytes_primera_pagina = 5;
          }
          ∷ [];
    }
    ∷ [])

musemalloc-dos_direcciones_example :
    Garantiza (λ r. r.0 ≡ r.1) (dos_direcciones 1000 10 7 5 sin_segmentos)
unfolding lookup buscar_frame_libre
musemalloc-dos_direcciones_example =
    musemalloc-dos_direcciones 1000 5 sin_segmentos 0 10 7 refl refl (omega arith) (omega arith)
      (omega arith) (omega arith)

musefree-pieza_primera_example :
    Garantiza
      (λ r. musefree 5 r.1 r.0 ≡ (if 1 == 0 then fallo puntero_nulo else ok (r.0, negsuc 0)))
      (musemalloc 1000 10 5 con_ocupado)
unfolding lookup buscar_frame_libre
musefree-pieza_primera_example =
    musefree-pieza_primera 1000 5 con_ocupado 1 10 refl refl (omega arith) (omega arith)
      (omega arith) (omega arith)

musefree-Responde_example : Logra (RespondeMusefree 5 1040 con_pieza) (musefree 5 1040 con_pieza)
musefree-Responde_example = musefree-Responde 5 1040 con_pieza

-- In 60 bytes there are a page and 28 bytes more.
crear_segmento-ConSegmento_example :
    Logra (λ r. ConSegmento 5 32 50 1 28 r.0) (crear_segmento 1000 50 5 sin_segmentos)
crear_segmento-ConSegmento_example =
    crear_segmento-ConSegmento 1000 50 5 sin_segmentos 1 28 (omega arith) (omega arith)
      (omega arith) (omega arith) (omega arith) (omega arith)
