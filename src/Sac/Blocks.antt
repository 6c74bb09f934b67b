-- ===== src/Sac/Blocks.antt =====
-- Blocks: `asignarBloqueLibre`, `obtenerBloqueLibre`, `obtenerBloquesLibres`, `settearPosicion` and
-- `agregarBloqueLibre` of Sac-Server/estructuras.c.
pub mod Search
use linuse_tp_os.Base.{
  ℕ, zero, suc, ◌+◌, ◌-◌, ◌*◌, ◌/◌, ◌%◌, ◌^◌, Bool, true, false, ◌&&◌, Option, none, some, List, [],
  ◌∷◌, ltb, ◌==◌, if◌then◌else◌, clave_nombre, clave_numero, ℤ, pos, negsuc, salida, fuera_de_rango,
  indeterminado, Resultado, ok, fallo, ◌>>=◌, get_elem?, set, lookup, insert,
}
use linuse_tp_os.Sac.Model.{Archivo, Disco}

-- The first bit that is 0, of those after the first `k`, from index `i` on.
unfoldable pub primer_cero : ℕ → ℕ → List Bool → Option ℕ
primer_cero k i [] = none
primer_cero zero i (false ∷ bs) = some i
primer_cero zero i (true ∷ bs) = primer_cero zero (suc i) bs
primer_cero (suc k) i (b ∷ bs) = primer_cero k (suc i) bs

unfoldable pub asignar_bloque_libre : Disco → Resultado (Disco × ℕ)
unfolding primer_cero
asignar_bloque_libre d = elim (primer_cero 0 0 d.bit_array) [
  | none ↦ fallo salida
  | some i ↦ ok (record d { bit_array = set d.bit_array i true }, i)
]

-- HEADER + TAMANIO_BITMAP + GFILEBYTABLE.
abbrev pub primer_bloque : Disco → ℕ
primer_bloque d = 1 + d.tamanio_bitmap + 1024

-- The bitarray is told the number of blocks as its size in bytes, so the loop would go on into the memory
-- after the bitmap; only the bits of the blocks are here. With none that is 0, `res` is returned as it
-- was never set.
unfoldable pub obtener_bloque_libre : Disco → Resultado (Disco × ℕ)
unfolding primer_cero
obtener_bloque_libre d = elim (primer_cero (primer_bloque d) 0 d.bitmap) [
  | none ↦ fallo indeterminado
  | some i ↦ ok (record d { bitmap = set d.bitmap i true }, i)
]

unfoldable pub contar_libres : List Bool → ℕ
contar_libres [] = 0
contar_libres (true ∷ bs) = contar_libres bs
contar_libres (false ∷ bs) = suc (contar_libres bs)

unfoldable pub obtener_bloques_libres : Disco → Disco × ℕ
unfolding contar_libres
obtener_bloques_libres d =
    (record d { bitmap_free_blocks = contar_libres d.bitmap }, contar_libres d.bitmap)

unfoldable pub opuesto : ℕ → ℤ
opuesto zero = pos 0
opuesto (suc n) = negsuc n

-- `settearPosicion`: the offset becomes an `int`, and `div` and `/` round towards 0.
unfoldable pub settear_posicion : ℕ → ℤ × ℤ
unfolding opuesto
settear_posicion offset =
    let n = offset % 2 ^ 32 in
    let m = 2 ^ 32 - n in
    let tramo = 4096 * 1024 in
    if ltb n (2 ^ 31)
    then (pos (n / tramo), pos (n % tramo / 4096))
    else (opuesto (m / tramo), opuesto (m % tramo / 4096))

-- An index of an array of C, read and written.
abbrev pub indice : ℤ → Resultado ℕ
indice (pos n) = ok n
indice (negsuc n) = fallo fuera_de_rango

abbrev pub leer_en : List ℕ → ℕ → Resultado ℕ
leer_en xs i = elim (get_elem? xs i) [ none ↦ fallo fuera_de_rango | some x ↦ ok x ]

abbrev pub escribir_en : List ℕ → ℕ → ℕ → Resultado (List ℕ)
escribir_en xs i v = elim (get_elem? xs i) [
  | none ↦ fallo fuera_de_rango
  | some x ↦ ok (set xs i v)
]

unfoldable pub ceros : ℕ → List ℕ
ceros zero = []
ceros (suc n) = 0 ∷ ceros n

-- 0, or -ENOSPC.
pub data Respuesta : Type 0 where
  hecho : Respuesta
  sin_espacio : Respuesta

-- The block of pointers that `agregarBloqueLibre` writes to: a new one, cleared, where the position in
-- it is 0.
unfoldable pub bloque_de_punteros : ℕ → ℕ → Archivo → Disco → Resultado (Archivo × Disco × ℕ)
unfolding obtener_bloque_libre ceros
bloque_de_punteros nodo posicion f d =
    if posicion == 0
    then (do
      (d1, nuevo) ← obtener_bloque_libre d
      b1 ← escribir_en f.bloques_indirectos nodo nuevo
      b2 ← escribir_en b1 (suc nodo) 0
      ok (
        record f { bloques_indirectos = b2 },
        record d1 { bloques_de_punteros = insert nuevo (ceros 1024) d1.bloques_de_punteros },
        nuevo,
      ))
    else (do actual ← leer_en f.bloques_indirectos nodo; ok (f, d, actual))

-- `nodo_punteros[position] = node_number`.
unfoldable pub escribir_puntero : ℕ → ℕ → ℕ → Disco → Resultado Disco
escribir_puntero bloque posicion numero d = elim (lookup bloque d.bloques_de_punteros) [
  | none ↦ fallo indeterminado
  | some ps ↦ do
    ps' ← escribir_en ps posicion numero
    ok (record d { bloques_de_punteros = insert bloque ps' d.bloques_de_punteros })
]

-- `agregarBloqueLibre`. A position in a block of pointers is below 1024, so the branch for 1024 is not
-- taken; it reads `bloques_indirectos`, as here.
unfoldable pub agregar_bloque_libre : Archivo → ℕ → Disco → Resultado (Archivo × Disco × Respuesta)
unfolding settear_posicion bloque_de_punteros escribir_puntero
agregar_bloque_libre f numero d = do
  nodo ← indice (settear_posicion f.tamanio_archivo).0
  posicion ← indice (settear_posicion f.tamanio_archivo).1
  if (nodo == 999 && posicion == 1023) then ok (f, d, sin_espacio) else (do
    actual ← leer_en f.bloques_indirectos nodo
    (f1, d1, bloque) ← bloque_de_punteros nodo posicion f d
    d2 ← escribir_puntero bloque posicion numero d1
    ok (f1, d2, hecho))
