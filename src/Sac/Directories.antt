-- ===== src/Sac/Directories.antt =====
-- A directory that is removed with what is below it: `o_rmdir` and `eliminarRecursivamente` of
-- Sac-Server/operaciones.c.
pub mod Emptying
pub mod Removal
pub mod Tree
pub mod Subtree
use linuse_tp_os.Base.{
  ℕ, zero, suc, ◌-◌, not, List, ◌==◌, if◌then◌else◌, ℤ, pos, negsuc, indeterminado, Resultado, ok,
  fallo, ◌>>=◌, en_arreglo, get_elem?, set,
}
use linuse_tp_os.Sac.Model.{Disco}
use linuse_tp_os.Sac.Paths.{ningun_nodo, dame_nodo_de}
use linuse_tp_os.Sac.Nodes.{indice_de, es_hijo}
use linuse_tp_os.Sac.Freeing.{eliminar_nodos}

-- `estado = BORRADO` for the node at an index.
unfoldable pub borrar_nodo : ℕ → Disco → Resultado Disco
borrar_nodo i d = do
  f ← en_arreglo (get_elem? d.tabla i)
  ok (record d { tabla = set d.tabla i (record f { estado = 0 }) })

-- A file at the index `i`. The blocks that are freed are those of the node before it.
unfoldable pub eliminar_archivo : ℕ → Disco → Resultado Disco
unfolding indice_de eliminar_nodos borrar_nodo
eliminar_archivo i d = do
  j ← indice_de i
  f ← en_arreglo (get_elem? d.tabla j)
  (modo, (f1, d1)) ← eliminar_nodos 1 0 0 f d
  borrar_nodo i (record d1 { tabla = set d1.tabla j f1 })

-- The body of the loop. `baja` is the recursive call, with the number of a node.
unfoldable pub eliminar_hijo : (ℕ → Disco → Resultado Disco) → ℕ → ℕ → Disco → Resultado Disco
unfolding eliminar_archivo borrar_nodo
eliminar_hijo baja mi_nodo i d = do
  f ← en_arreglo (get_elem? d.tabla i)
  if not (es_hijo mi_nodo f)
      then ok d
      else if f.estado == 1
      then eliminar_archivo i d
      else if f.estado == 2
      then (do d1 ← baja (suc i) d; borrar_nodo i d1)
      else ok d

-- The loop, with `k` indices left of the 1024.
unfoldable pub eliminar_hijos : (ℕ → Disco → Resultado Disco) → ℕ → ℕ → Disco → Resultado Disco
unfolding eliminar_hijo
eliminar_hijos baja mi_nodo zero d = ok d
eliminar_hijos baja mi_nodo (suc k) d = do
  d1 ← eliminar_hijo baja mi_nodo (1024 - suc k) d
  eliminar_hijos baja mi_nodo k d1

-- `eliminarRecursivamente`. The fuel is how deep the calls may go: deeper than there are nodes, some
-- directory lies below itself, and the calls do not end.
unfoldable pub eliminar_recursivamente : ℕ → ℕ → Disco → Resultado Disco
unfolding eliminar_hijos
eliminar_recursivamente zero mi_nodo d = fallo indeterminado
eliminar_recursivamente (suc n) mi_nodo d =
    eliminar_hijos (eliminar_recursivamente n) mi_nodo 1024 d

unfoldable pub o_rmdir : List ℕ → Disco → Resultado (Disco × ℤ)
unfolding indice_de eliminar_recursivamente borrar_nodo
o_rmdir path d = do
  mi_nodo ← dame_nodo_de path d.tabla
  if mi_nodo == ningun_nodo then ok (d, negsuc 0) else (do
    i ← indice_de mi_nodo
    d1 ← eliminar_recursivamente 1025 mi_nodo d
    d2 ← borrar_nodo i d1
    ok (d2, pos 0))
