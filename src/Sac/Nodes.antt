-- ===== src/Sac/Nodes.antt =====
-- Directories and files of the table of nodes: `o_mkdir`, `o_create`, `o_rmdir2` and `o_rename` of
-- Sac-Server/operaciones.c. The answer is the `int` that each returns.
pub mod Removal
pub mod Creation
use linuse_tp_os.Base.{
  ℕ, zero, suc, Bool, ◌&&◌, ◌||◌, not, Option, none, some, List, [], ◌∷◌, ltb, ◌==◌, if◌then◌else◌,
  iguales, ℤ, pos, negsuc, fuera_de_rango, Resultado, ok, fallo, ◌>>=◌, en_arreglo, length,
  get_elem?, set, any,
}
use linuse_tp_os.Sac.Model.{Archivo, Disco}
use linuse_tp_os.Sac.Blocks.{obtener_bloque_libre, escribir_en, agregar_bloque_libre}
use linuse_tp_os.Sac.Paths.{barra, ningun_nodo, dividir_ruta, dame_nodo_de}

-- The index in the table of the node of that number. The root has number 0, and no node.
unfoldable pub indice_de : ℕ → Resultado ℕ
indice_de zero = fallo fuera_de_rango
indice_de (suc i) = ok i

-- `strcpy` into the GFILENAMELENGTH bytes of a name.
unfoldable pub copiar_nombre : List ℕ → Resultado (List ℕ)
copiar_nombre nombre = if ltb (length nombre) 71 then ok nombre else fallo fuera_de_rango

-- The first node that is free.
unfoldable pub nodo_libre : ℕ → List Archivo → Option ℕ
nodo_libre i [] = none
nodo_libre i (f ∷ fs) = if f.estado == 0 then some i else nodo_libre (suc i) fs

-- The number of the directory that a new node goes to.
unfoldable pub madre_de : List ℕ → List Archivo → Resultado ℕ
madre_de arriba fs = if iguales arriba (barra ∷ []) then ok 0 else dame_nodo_de arriba fs

-- The node that `o_mkdir` or `o_create` fills in.
unfoldable pub llenar_nodo : ℕ → List ℕ → ℕ → Archivo → Resultado Archivo
unfolding copiar_nombre
llenar_nodo estado nombre madre f = do
  n ← copiar_nombre nombre
  ok (record f { estado = estado; nombre_archivo = n; tamanio_archivo = 0; bloque_padre = madre })

unfoldable pub o_mkdir : List ℕ → Disco → Resultado (Disco × ℤ)
unfolding nodo_libre madre_de llenar_nodo
o_mkdir path d = do
  yo ← dame_nodo_de path d.tabla
  if not (yo == ningun_nodo) then ok (d, pos 1) else (do
    (arriba, nombre) ← dividir_ruta path
    madre ← madre_de arriba d.tabla
    if madre == ningun_nodo then ok (d, pos 1) else (elim (nodo_libre 0 d.tabla) [
      | none ↦ ok (d, pos 1)
      | some i ↦ do
        f ← en_arreglo (get_elem? d.tabla i)
        f' ← llenar_nodo 2 nombre madre f
        ok (record d { tabla = set d.tabla i f' }, pos 0)
    ]))

-- `ahora` is the answer of `time`. -EDQUOT is -122. What `agregarBloqueLibre` answers is not looked at.
unfoldable pub o_create : ℕ → List ℕ → Disco → Resultado (Disco × ℤ)
unfolding nodo_libre madre_de llenar_nodo
o_create ahora path d = do
  yo ← dame_nodo_de path d.tabla
  if not (yo == ningun_nodo) then ok (d, pos 1) else (do
    (arriba, nombre) ← dividir_ruta path
    madre ← madre_de arriba d.tabla
    if madre == ningun_nodo then ok (d, pos 1) else (elim (nodo_libre 0 d.tabla) [
      | none ↦ ok (d, negsuc 121)
      | some i ↦ do
        f ← en_arreglo (get_elem? d.tabla i)
        f1 ← llenar_nodo 1 nombre madre f
        b ← escribir_en f1.bloques_indirectos 0 0
        let f2 = record f1 {
          bloques_indirectos = b;
          fecha_creacion = ahora;
          fecha_modificacion = ahora;
        }
        (d1, bloque) ← obtener_bloque_libre d
        (f3, d2, r) ← agregar_bloque_libre f2 bloque d1
        ok (record d2 { tabla = set d2.tabla i f3 }, pos 0)
    ]))

-- A node in use whose directory is `yo`.
abbrev pub es_hijo : ℕ → Archivo → Bool
es_hijo yo f = not (f.estado == 0) && f.bloque_padre == yo

-- `o_rmdir2`: a directory that is not empty stays.
unfoldable pub o_rmdir2 : List ℕ → Disco → Resultado (Disco × ℤ)
unfolding indice_de
o_rmdir2 path d = do
  yo ← dame_nodo_de path d.tabla
  if yo == ningun_nodo || any (es_hijo yo) d.tabla then ok (d, negsuc 0) else (do
    i ← indice_de yo
    f ← en_arreglo (get_elem? d.tabla i)
    ok (record d { tabla = set d.tabla i (record f { estado = 0 }) }, pos 0))

-- `o_rename`. The directory of the new path may be missing: its number is then -1. The whole new path
-- is copied into GFILENAMELENGTH + 1 bytes.
unfoldable pub o_rename : List ℕ → List ℕ → Disco → Resultado (Disco × ℤ)
unfolding indice_de copiar_nombre
o_rename path nuevo d = do
  yo ← dame_nodo_de path d.tabla
  if yo == ningun_nodo then ok (d, negsuc 0) else (do
    (arriba, nombre) ← (if ltb (length nuevo) 72 then dividir_ruta nuevo else fallo fuera_de_rango)
    madre ← dame_nodo_de arriba d.tabla
    i ← indice_de yo
    f ← en_arreglo (get_elem? d.tabla i)
    n ← copiar_nombre nombre
    ok (
      record d { tabla = set d.tabla i (record f { nombre_archivo = n; bloque_padre = madre }) },
      pos 0,
    ))
