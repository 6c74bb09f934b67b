-- ===== src/Sac/Growing.antt =====
-- Space for a file that grows: `darleEspacioNuevo` of Sac-Server/estructuras.c. A `size_t` and an `int`
-- meet in its comparisons, which are those of patterns of 32 bits.
pub mod Refusal
pub mod Fuel
use linuse_tp_os.Base.{
  ℕ, zero, suc, ◌+◌, ◌-◌, ◌*◌, ◌%◌, ◌^◌, ltb, leb, if◌then◌else◌, indeterminado, Resultado, ok,
  fallo, ◌>>=◌,
}
use linuse_tp_os.Sac.Model.{Archivo, Disco}
use linuse_tp_os.Sac.Blocks.{
  obtener_bloque_libre, contar_libres, Respuesta, hecho, sin_espacio, agregar_bloque_libre,
}

unfoldable pub espacio_en_bloque : Archivo → ℕ
espacio_en_bloque f = 4096 - f.tamanio_archivo % 4096

-- `a - b` of patterns of 32 bits.
unfoldable pub menos : ℕ → ℕ → ℕ
menos a b = (a + 2 ^ 32 - b) % 2 ^ 32

unfoldable pub agrandar : ℕ → Archivo → Archivo
agrandar n f = record f { tamanio_archivo = (f.tamanio_archivo + n) % 2 ^ 32 }

-- The loop, with what is left of `size`. Each turn takes a free block, so it has fuel for as many turns
-- as there are free blocks, and one more: with none left `obtener_bloque_libre` fails. The answer of
-- `agregarBloqueLibre` is not looked at.
unfoldable pub agregar_bloques : ℕ → ℕ → ℕ → Archivo → Disco → Resultado (ℕ × (Archivo × Disco))
unfolding menos agrandar obtener_bloque_libre agregar_bloque_libre
agregar_bloques zero espacio size f d =
    if leb espacio size then fallo indeterminado else ok (size, (f, d))
agregar_bloques (suc n) espacio size f d =
    if leb espacio size
    then (do
      (d1, nuevo) ← obtener_bloque_libre d
      (f1, d2, r) ← agregar_bloque_libre f nuevo d1
      agregar_bloques n espacio (menos size 4096) (agrandar 4096 f1) d2)
    else ok (size, (f, d))

unfoldable pub darle_espacio_nuevo : Archivo → ℕ → Disco → Resultado (Archivo × Disco × Respuesta)
unfolding espacio_en_bloque menos agrandar agregar_bloques contar_libres
darle_espacio_nuevo f size d =
    let espacio = espacio_en_bloque f in
    if ltb (d.bitmap_free_blocks * 4096 % 2 ^ 32) (menos size espacio)
    then ok (f, d, sin_espacio)
    else if leb size espacio
    then ok (agrandar size f, d, hecho)
    else (do
      (resto, (f1, d1)) ←
          agregar_bloques (suc (contar_libres d.bitmap)) espacio size (agrandar espacio f) d
      ok (agrandar resto f1, d1, hecho))
