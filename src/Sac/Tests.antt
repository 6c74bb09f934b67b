-- ===== src/Sac/Tests.antt =====
-- A small disk on which the operations on blocks of Sac-Server/estructuras.c run.
pub mod Freeing
mod Directories
mod Growing
use linuse_tp_os.Base.{
  ℕ, zero, suc, ◌≡◌, refl, ◌≢◌, Bool, true, false, List, [], ◌∷◌, ◌++◌, arith, indeterminado, ok,
  fallo, Logra, Garantiza,
}
use linuse_tp_os.Sac.Model.{Archivo, Disco}
use linuse_tp_os.Sac.Blocks.{obtener_bloque_libre}
use linuse_tp_os.Sac.Blocks.Search.{Reserva, obtener_bloque_libre-Reserva}
use linuse_tp_os.Sac.Nodes.{o_rmdir2}
use linuse_tp_os.Sac.Nodes.Removal.{Rmdir, o_rmdir2-Rmdir}
use linuse_tp_os.Sac.Paths.{
  ultimo, sin_ultimo, nombre_de, primeros, sin_barra, dividir_ruta, buscar_nodo, dame_nodo_con,
  dame_nodo_de,
}
use linuse_tp_os.Sac.Paths.Fuel.{dame_nodo_con-suficiente}

abbrev repetidos : ℕ → List Bool → List Bool
repetidos zero l = l
repetidos (suc n) l = true ∷ repetidos n l

-- The header, one block of bitmap, the table of nodes, one block in use and two that are free.
abbrev pub disco : Disco
disco = record {
  tabla = [];
  bitmap = repetidos 1027 (false ∷ false ∷ []);
  bit_array = [];
  tamanio_bitmap = 1;
  bitmap_free_blocks = 2;
  bloques_de_punteros = [];
}

obtener_bloque_libre-Reserva_example :
    Garantiza (λ r. Reserva disco r.0 r.1) (obtener_bloque_libre disco)
obtener_bloque_libre-Reserva_example = obtener_bloque_libre-Reserva disco 1028 (omega arith) refl

abbrev pub un_nodo : ℕ → List ℕ → ℕ → Archivo
un_nodo estado nombre padre = record {
  estado = estado;
  nombre_archivo = nombre;
  bloque_padre = padre;
  tamanio_archivo = 0;
  fecha_creacion = 0;
  fecha_modificacion = 0;
  bloques_indirectos = [];
}

-- The directory /a, the file /a/b, and a node that is free.
abbrev pub nodos : List Archivo
nodos = un_nodo 2 (97 ∷ []) 0 ∷ un_nodo 1 (98 ∷ []) 1 ∷ un_nodo 0 [] 0 ∷ []

abbrev pub ruta_b : List ℕ
ruta_b = 47 ∷ 97 ∷ 47 ∷ 98 ∷ []

dame_nodo_con-suficiente_example :
    (dame_nodo_con 9 ruta_b nodos ≢ fallo indeterminado)
    × (dame_nodo_con 9 ruta_b nodos ≡ dame_nodo_con 5 ruta_b nodos)
dame_nodo_con-suficiente_example =
    dame_nodo_con-suficiente 9 5 ruta_b nodos (omega arith) (omega arith)

o_rmdir2-Rmdir_example :
    Logra
      (Rmdir ruta_b (record disco { tabla = nodos }))
      (o_rmdir2 ruta_b (record disco { tabla = nodos }))
o_rmdir2-Rmdir_example = o_rmdir2-Rmdir ruta_b (record disco { tabla = nodos })

-- The file is the second node, and the directory is not empty.
pub ruta_b-nodo : dame_nodo_de ruta_b nodos ≡ ok 2
unfolding dame_nodo_de dame_nodo_con dividir_ruta sin_barra nombre_de primeros ultimo sin_ultimo
    buscar_nodo
ruta_b-nodo = refl

abbrev pub libres : ℕ → List Archivo
libres zero = []
libres (suc n) = un_nodo 0 [] 0 ∷ libres n

-- The table with 1021 free nodes more, and the path /a/c.
abbrev pub disco_con_tabla : Disco
disco_con_tabla = record disco { tabla = nodos ++ libres 1021 }

abbrev pub ruta_c : List ℕ
ruta_c = 47 ∷ 97 ∷ 47 ∷ 99 ∷ []
