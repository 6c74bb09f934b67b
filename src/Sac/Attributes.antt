-- ===== src/Sac/Attributes.antt =====
-- What the file server tells of its nodes: `o_getAttr`, `o_readDir` and `o_open` of
-- Sac-Server/operaciones.c. The first two send their answer themselves.
use linuse_tp_os.Base.{
  ℕ, Bool, ◌&&◌, ◌||◌, List, [], ◌∷◌, ◌++◌, ◌==◌, if◌then◌else◌, iguales, ℤ, pos, negsuc, Resultado,
  ok, ◌>>=◌, en_arreglo, get_elem?,
}
use linuse_tp_os.Wire.{campo, campo_int, campo_signo}
use linuse_tp_os.Sac.Model.{Archivo, Disco}
use linuse_tp_os.Sac.Paths.{barra, ningun_nodo, dame_nodo_de}
use linuse_tp_os.Sac.Nodes.{indice_de, o_mkdir, o_create, o_rename}
use linuse_tp_os.Sac.Freeing.{o_unlink}
use linuse_tp_os.Sac.Directories.{o_rmdir}
use linuse_tp_os.Sac.Connection.{Operaciones}

-- DIRECTORIO and OCUPADO.
abbrev pub es_directorio : Archivo → Bool
es_directorio f = f.estado == 2

abbrev pub es_archivo : Archivo → Bool
es_archivo f = f.estado == 1

-- S_IFDIR and S_IFREG with all permissions.
abbrev pub permisos_de : Archivo → ℕ
permisos_de f = if es_directorio f then 16895 else if es_archivo f then 33279 else 0

abbrev pub enlaces_de : Archivo → ℕ
enlaces_de f = if es_directorio f then 2 else if es_archivo f then 1 else 0

abbrev pub tamanio_de : Archivo → ℕ
tamanio_de f = if es_directorio f then 4096 else if es_archivo f then f.tamanio_archivo else 0

-- A time of a node in use. Of any other the attributes stay 0.
abbrev pub fecha_de : Archivo → ℕ → ℕ
fecha_de f fecha = if es_directorio f then fecha else if es_archivo f then fecha else 0

-- `ahora` is the answer of `time`.
unfoldable pub envio_atributos : ℕ → Archivo → List ℕ
envio_atributos ahora f =
    campo_int 0
    ++ (campo_int (permisos_de f)
        ++ (campo_int (enlaces_de f)
            ++ (campo_int (tamanio_de f)
                ++ (campo_int (fecha_de f f.fecha_modificacion)
                    ++ (campo_int (fecha_de f f.fecha_creacion) ++ campo_int (fecha_de f ahora))))))

unfoldable pub envio_raiz : List ℕ
envio_raiz = campo_int 1 ++ (campo_int 16895 ++ (campo_int 2 ++ campo_int 0))

unfoldable pub o_get_attr : ℕ → List ℕ → Disco → Resultado (Disco × List ℕ)
unfolding envio_atributos envio_raiz indice_de
o_get_attr ahora path d = do
  nodo ← dame_nodo_de path d.tabla
  if nodo == ningun_nodo
      then ok (d, campo_signo (negsuc 0))
      else if iguales path (barra ∷ [])
      then ok (d, envio_raiz)
      else (do
        i ← indice_de nodo
        f ← en_arreglo (get_elem? d.tabla i)
        ok (d, envio_atributos ahora f))

-- A node in use whose directory is `nodo`.
abbrev pub esta_en : ℕ → Archivo → Bool
esta_en nodo f = f.bloque_padre == nodo && (es_directorio f || es_archivo f)

-- The names one after the other. The ";" is added for every node of the table, whether it is named or not.
unfoldable pub pegotear : ℕ → List Archivo → List ℕ
pegotear nodo [] = []
pegotear nodo (f ∷ fs) =
    (if esta_en nodo f then f.nombre_archivo else []) ++ (59 ∷ pegotear nodo fs)

-- For a missing path -1 is sent, and then the listing all the same.
unfoldable pub o_read_dir : List ℕ → Disco → Resultado (Disco × List ℕ)
unfolding pegotear
o_read_dir path d = do
  nodo ← dame_nodo_de path d.tabla
  let listado = campo_int 0 ++ campo (pegotear nodo d.tabla)
  ok (d, (if nodo == ningun_nodo then campo_signo (negsuc 0) ++ listado else listado))

unfoldable pub o_open : List ℕ → Disco → Resultado (Disco × ℤ)
o_open path d = ok (d, pos 0)

-- The operations on a disk. `resto` has those that are not modelled.
unfoldable pub operaciones_de : ℕ → Operaciones Disco → Operaciones Disco
unfolding o_get_attr o_read_dir o_open
operaciones_de ahora resto = record resto {
  o_create = o_create ahora;
  o_open = o_open;
  o_read_dir = o_read_dir;
  o_get_attr = o_get_attr ahora;
  o_mkdir = o_mkdir;
  o_unlink = o_unlink;
  o_rmdir = o_rmdir;
  o_rename = o_rename;
}
