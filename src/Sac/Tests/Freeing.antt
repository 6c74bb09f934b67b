-- ===== src/Sac/Tests/Freeing.antt =====
-- A file of two blocks that is removed.
use linuse_tp_os.Base.{
  ℕ, ◌≡◌, refl, true, false, [], ◌∷◌, arith, clave_nombre, clave_numero, ok, Logra, lookup,
}
use linuse_tp_os.Sac.Model.{Archivo, Disco}
use linuse_tp_os.Sac.Tests.{disco, un_nodo}
use linuse_tp_os.Sac.Freeing.{
  limpiar_bit, borrar_datos, punteros_de, borrar_punteros, posicion_siguiente, ultima_posicion,
  eliminar_nodos,
}
use linuse_tp_os.Sac.Freeing.Blocks.{Liberado, eliminar_nodos-Liberado}
use linuse_tp_os.Sac.Blocks.{settear_posicion}

-- Block 2 has the numbers of the blocks 3 and 4.
abbrev con_archivo : Disco
con_archivo = record disco {
  bitmap = true ∷ true ∷ true ∷ true ∷ true ∷ false ∷ [];
  bitmap_free_blocks = 1;
  bloques_de_punteros = (2, 3 ∷ 4 ∷ []) ∷ [];
}

abbrev dos_bloques : Archivo
dos_bloques = record (un_nodo 1 (98 ∷ []) 0) {
  tamanio_archivo = 5000;
  bloques_indirectos = 2 ∷ 0 ∷ [];
}

eliminar_nodos-Liberado_example :
    Logra
      (λ (r : ℕ × (Archivo × Disco)). Liberado dos_bloques con_archivo r.1.1)
      (eliminar_nodos 1 0 0 dos_bloques con_archivo)
eliminar_nodos-Liberado_example = eliminar_nodos-Liberado dos_bloques con_archivo (omega arith)

-- It ends, with the blocks of the file free and its block of pointers too.
dos_bloques_libres :
    eliminar_nodos 1 0 0 dos_bloques con_archivo
    ≡ ok (
      1,
      (
        record dos_bloques { bloques_indirectos = 0 ∷ 0 ∷ [] },
        record con_archivo {
          bitmap = true ∷ true ∷ false ∷ false ∷ false ∷ false ∷ [];
          bitmap_free_blocks = 3;
        },
      ),
    )
unfolding eliminar_nodos borrar_punteros borrar_datos limpiar_bit punteros_de lookup ultima_posicion
    posicion_siguiente settear_posicion
dos_bloques_libres = refl
