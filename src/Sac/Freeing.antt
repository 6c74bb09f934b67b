-- ===== src/Sac/Freeing.antt =====
-- The blocks of a file that is removed: `eliminarNodos` of Sac-Server/estructuras.c, and `o_unlink` of
-- Sac-Server/operaciones.c. A position, which may go down to -1, is kept as the number after it.
pub mod Count
pub mod Bits
pub mod Blocks
use linuse_tp_os.Base.{
  ℕ, zero, suc, ◌+◌, ◌-◌, ◌*◌, ◌%◌, false, ◌&&◌, none, some, List, ◌==◌, if◌then◌else◌,
  clave_nombre, clave_numero, ℤ, pos, negsuc, fuera_de_rango, indeterminado, Resultado, ok, fallo,
  ◌>>=◌, en_arreglo, get_elem?, set, lookup,
}
use linuse_tp_os.Sac.Model.{Archivo, Disco}
use linuse_tp_os.Sac.Blocks.{settear_posicion, leer_en}
use linuse_tp_os.Sac.Paths.{dame_nodo_de}
use linuse_tp_os.Sac.Nodes.{indice_de, o_rmdir2}

-- `bitarray_clean_bit`.
unfoldable pub limpiar_bit : ℕ → Disco → Resultado Disco
limpiar_bit n d = do
  b ← en_arreglo (get_elem? d.bitmap n)
  ok (record d { bitmap = set d.bitmap n false })

-- The inner loop, which frees the blocks of data down to `hasta`.
unfoldable pub borrar_datos : List ℕ → ℕ → ℕ → Disco → Resultado Disco
unfolding limpiar_bit
borrar_datos aux hasta zero d = if hasta == 0 then ok d else fallo fuera_de_rango
borrar_datos aux hasta (suc k) d = if hasta == suc k then ok d else (do
  n ← leer_en aux k
  d1 ← limpiar_bit n d
  borrar_datos aux hasta k (record d1 { bitmap_free_blocks = suc d1.bitmap_free_blocks }))

unfoldable pub punteros_de : ℕ → Disco → Resultado (List ℕ)
punteros_de n d = elim (lookup n d.bloques_de_punteros) [
  | none ↦ fallo indeterminado
  | some ps ↦ ok ps
]

-- The outer loop, from the position `puntero` of the blocks of pointers and `dato` of the data. It goes
-- on with the same block of pointers only where it ends.
unfoldable pub borrar_punteros : ℕ → ℕ → ℕ → ℕ → ℕ → Archivo → Disco → Resultado (Archivo × Disco)
unfolding borrar_datos limpiar_bit punteros_de
borrar_punteros modo pointer_upto data_upto zero dato f d = ok (f, d)
borrar_punteros modo pointer_upto data_upto (suc i) dato f d =
    if modo == 0 && (dato == suc data_upto && i == pointer_upto)
    then ok (f, d)
    else if dato == 0
    then ok (f, d)
    else (do
      n ← leer_en f.bloques_indirectos i
      aux ← punteros_de n d
      d1 ← borrar_datos aux ((if i == pointer_upto then data_upto else 0) + (1 - modo)) dato d
      if i + modo == pointer_upto then ok (f, d1) else (do
        d2 ← limpiar_bit n d1
        let f1 = record f { bloques_indirectos = set f.bloques_indirectos i 0 }
        borrar_punteros modo pointer_upto data_upto i 1024 f1 d2))

unfoldable pub posicion_siguiente : ℤ → ℕ
posicion_siguiente (pos n) = suc n
posicion_siguiente (negsuc n) = 0

-- Where the last block of a file of that size is.
unfoldable pub ultima_posicion : ℕ → ℕ × ℕ
unfolding settear_posicion posicion_siguiente
ultima_posicion file_size =
    let pointer_pos = posicion_siguiente (settear_posicion file_size).0 in
    let data_pos = posicion_siguiente (settear_posicion file_size).1 in
    if file_size % (4096 * 1024) == 0
    then (pointer_pos - 1, 1024)
    else if file_size % 4096 == 0
    then (pointer_pos, data_pos - 1)
    else (pointer_pos, data_pos)

-- `modo` is DELETE_MODE, which comes back as it is left.
unfoldable pub eliminar_nodos : ℕ → ℕ → ℕ → Archivo → Disco → Resultado (ℕ × (Archivo × Disco))
unfolding borrar_punteros ultima_posicion
eliminar_nodos modo pointer_upto data_upto f d = do
  let ultima = ultima_posicion f.tamanio_archivo
  let modo' = if pointer_upto == 0 && data_upto == 0 then modo else 0
  r ← borrar_punteros modo' pointer_upto data_upto ultima.0 ultima.1 f d
  ok (modo', r)

-- The number of a missing path is no index of the table.
unfoldable pub o_unlink : List ℕ → Disco → Resultado (Disco × ℤ)
unfolding eliminar_nodos indice_de
o_unlink path d = do
  node ← dame_nodo_de path d.tabla
  i ← indice_de node
  f ← en_arreglo (get_elem? d.tabla i)
  (modo, (f1, d1)) ← eliminar_nodos 1 0 0 f d
  o_rmdir2 path (record d1 { tabla = set d1.tabla i f1 })
