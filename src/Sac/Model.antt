-- ===== src/Sac/Model.antt =====
-- The data of the file server: `sac_file_t` and the global variables of Sac-Server/estructuras.h that
-- the operations on blocks use.
use linuse_tp_os.Base.{ℕ, Bool, List, Dict}

pub record Archivo : Type 0 where
  pub estado : ℕ
  pub nombre_archivo : List ℕ
  pub bloque_padre : ℕ
  pub tamanio_archivo : ℕ
  pub fecha_creacion : ℕ
  pub fecha_modificacion : ℕ
  pub bloques_indirectos : List ℕ

-- A string is the list of its bytes, without the 0 that ends it.
-- `tabla` is the table at `inicioTablaDeNodos`, of GFILEBYTABLE nodes. `bitmap` is the bitmap at `bitmap_start`, a bit for each block of the disk; `bit_array` the one that
-- `asignarBloqueLibre` uses. `bloques_de_punteros` has the blocks that were written as arrays of numbers
-- of blocks, by their own number.
pub record Disco : Type 0 where
  pub tabla : List Archivo
  pub bitmap : List Bool
  pub bit_array : List Bool
  pub tamanio_bitmap : ℕ
  pub bitmap_free_blocks : ℕ
  pub bloques_de_punteros : Dict ℕ (List ℕ)
