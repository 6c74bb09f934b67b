-- ===== src/Sac/Paths.antt =====
-- Paths: `lastchar`, `dividirRuta` and `dameNodoDe` of Sac-Server/estructuras.c.
pub mod Fuel
use linuse_tp_os.Base.{
  ℕ, zero, suc, ◌-◌, ◌^◌, ◌&&◌, not, Option, none, some, List, [], ◌∷◌, ◌==◌, if◌then◌else◌,
  iguales, indeterminado, Resultado, ok, fallo, ◌>>=◌, desref, en_arreglo, length,
}
use linuse_tp_os.Sac.Model.{Archivo}

-- '/'.
abbrev pub barra : ℕ
barra = 47

-- What -1 is as a `ptrGBloque`.
abbrev pub ningun_nodo : ℕ
ningun_nodo = 2 ^ 32 - 1

-- The byte before the end, and the string without it.
unfoldable pub ultimo : List ℕ → Option ℕ
ultimo [] = none
ultimo (x ∷ []) = some x
ultimo (x ∷ y ∷ ys) = ultimo (y ∷ ys)

unfoldable pub sin_ultimo : List ℕ → List ℕ
sin_ultimo [] = []
sin_ultimo (x ∷ []) = []
sin_ultimo (x ∷ y ∷ ys) = x ∷ sin_ultimo (y ∷ ys)

-- What follows the last '/', where there is one.
unfoldable pub nombre_de : List ℕ → Option (List ℕ)
nombre_de [] = none
nombre_de (c ∷ cs) = elim (nombre_de cs) [
  | some n ↦ some n
  | none ↦ if c == barra then some cs else none
]

unfoldable pub primeros : ℕ → List ℕ → List ℕ
primeros zero xs = []
primeros (suc n) [] = []
primeros (suc n) (x ∷ xs) = x ∷ primeros n xs

unfoldable pub sin_barra : List ℕ → Resultado (List ℕ)
unfolding ultimo sin_ultimo
sin_barra path = do c ← en_arreglo (ultimo path); ok (if c == barra then sin_ultimo path else path)

-- `dividirRuta`: the path above, and the name. `strrchr` may be NULL.
unfoldable pub dividir_ruta : List ℕ → Resultado (List ℕ × List ℕ)
unfolding sin_barra nombre_de primeros
dividir_ruta path = do
  ruta ← sin_barra path
  nombre ← desref (nombre_de ruta)
  ok (primeros (length ruta - length nombre) ruta, nombre)

-- The loop over the table: one more than the index of the node, or -1.
unfoldable pub buscar_nodo : ℕ → List ℕ → ℕ → List Archivo → ℕ
buscar_nodo padre nombre i [] = ningun_nodo
buscar_nodo padre nombre i (f ∷ fs) =
    if f.bloque_padre == padre && (iguales nombre f.nombre_archivo && not (f.estado == 0))
    then suc i
    else buscar_nodo padre nombre (suc i) fs

-- `dameNodoDe`, for at most `n` names.
unfoldable pub dame_nodo_con : ℕ → List ℕ → List Archivo → Resultado ℕ
unfolding dividir_ruta buscar_nodo
dame_nodo_con zero path fs = fallo indeterminado
dame_nodo_con (suc n) path fs = if iguales path (barra ∷ []) then ok 0 else (do
  (arriba, nombre) ← dividir_ruta path
  padre ← dame_nodo_con n arriba fs
  ok (buscar_nodo padre nombre 0 fs))

-- `dameNodoDe`, with one more than the length of the path as the bound.
unfoldable pub dame_nodo_de : List ℕ → List Archivo → Resultado ℕ
unfolding dame_nodo_con
dame_nodo_de path fs = dame_nodo_con (suc (length path)) path fs
