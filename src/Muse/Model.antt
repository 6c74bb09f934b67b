-- ===== src/Muse/Model.antt =====
-- The data of MUSE: the structures of Memoria/muse.h and the global variables of Memoria/muse.c.
-- An index that is -1 is `none`. The bytes of the frames and of the swap file are not kept.
use linuse_tp_os.Base.{ℕ, String, Bool, Option, List, Dict}

pub record Frame : Type 0 where
  pub modificado : ℕ
  pub uso : ℕ
  pub esta_libre : Bool

pub record Pagina : Type 0 where
  pub presencia : ℕ
  pub numero_frame : Option ℕ
  pub indice_swap : Option ℕ

pub record HeapLista : Type 0 where
  pub direccion_heap : ℕ
  pub is_free : Bool
  pub size : ℕ
  pub esta_partido : Bool
  pub bytes_primera_pagina : ℕ

pub record Segmento : Type 0 where
  pub es_comun : Bool
  pub file_path : Option String
  pub id : ℕ
  pub base_logica : ℕ
  pub tamanio : ℕ
  pub tabla_paginas : List Pagina
  pub paginas_liberadas : ℕ
  pub metadatas : List HeapLista

-- `client_socket` is the array of utils.h, `tam_pagina` the size of a page.
pub record Muse : Type 0 where
  pub cantidad_frames : ℕ
  pub puntero_clock : ℕ
  pub bitmap_frames : List Frame
  pub bitmap_swap : List Bool
  pub tablas_segmentos : Dict ℕ (List Segmento)
  pub client_socket : List ℕ
  pub tam_pagina : ℕ
