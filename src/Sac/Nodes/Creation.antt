-- ===== src/Sac/Nodes/Creation.antt =====
-- A directory that is made (`o_mkdir` of Sac-Server/operaciones.c), and the search that finds it.
use linuse_tp_os.Base.{
  ℕ, zero, suc, ◌<◌, ◌≡◌, refl, ap, ◌∙◌, ◌⊎◌, inl, inr, true, false, some, List, [], ◌∷◌, arith,
  ◌==◌, Bool-cases, iguales, ℤ, pos, ok, ◌>>=◌, >>=-congruente, Logra-ok, length, get_elem?,
}
use linuse_tp_os.Sac.Model.{Archivo, Disco}
use linuse_tp_os.Sac.Paths.{barra, dividir_ruta, buscar_nodo, dame_nodo_con, dame_nodo_de}
use linuse_tp_os.Sac.Paths.Fuel.{Corta, dividir_ruta-Corta, dame_nodo_con-igual}
use linuse_tp_os.Sac.Nodes.{madre_de}

madre_de-otra :
    (arriba : List ℕ) (fs : List Archivo)
    → iguales arriba (barra ∷ []) ≡ false
    → dame_nodo_de arriba fs ≡ madre_de arriba fs
unfolding madre_de
madre_de-otra arriba fs b = rw b refl

dame_nodo_de-con :
    (n : ℕ) (path : List ℕ) (fs : List Archivo)
    → length path < n
    → dame_nodo_con n path fs ≡ dame_nodo_de path fs
unfolding dame_nodo_de
dame_nodo_de-con n path fs l = dame_nodo_con-igual n (suc (length path)) path fs l (omega arith)

madre_de-dame :
    (n : ℕ) (arriba : List ℕ) (fs : List Archivo)
    → length arriba < n
    → dame_nodo_con n arriba fs ≡ madre_de arriba fs
unfolding madre_de dame_nodo_con
madre_de-dame zero arriba fs l = absurd (omega arith)
madre_de-dame (suc n) arriba fs l = elim (Bool-cases (iguales arriba (barra ∷ []))) [
  | inl b ↦ rw b refl
  | inr b ↦ dame_nodo_de-con (suc n) arriba fs l ∙ madre_de-otra arriba fs b
]

-- `dameNodoDe` of a path other than the root is the search in the directory above.
pub dame_nodo_de-madre_de :
    (path : List ℕ) (fs : List Archivo)
    → iguales path (barra ∷ []) ≡ false
    → dame_nodo_de path fs
      ≡ (dividir_ruta path >>= λ r. madre_de r.0 fs >>= λ padre. ok (buscar_nodo padre r.1 0 fs))
unfolding dame_nodo_de dame_nodo_con
dame_nodo_de-madre_de path fs b = rw b (
    >>=-congruente (dividir_ruta path) _ _ λ r e.
      ap (λ z. z >>= λ padre. ok (buscar_nodo padre r.1 0 fs))
        (madre_de-dame (length path) r.0 fs
          (Logra-ok (Corta path) (dividir_ruta path) r (dividir_ruta-Corta path) e)))

-- A free node became a directory that the search in the directory above finds.
pub record Creado (path : List ℕ) (d d' : Disco) : Type 0 where
  pub arriba : List ℕ
  pub nombre : List ℕ
  pub madre : ℕ
  pub nodo : ℕ
  pub partes : dividir_ruta path ≡ ok (arriba, nombre)
  pub directorio : madre_de arriba d.tabla ≡ ok madre
  pub nuevo : (f : Archivo) × (get_elem? d.tabla nodo ≡ some f) × ((f.estado == 0) ≡ true)
  -- an empty directory of that name, DIRECTORIO being 2
  pub escrito :
      (g : Archivo) × (get_elem? d'.tabla nodo ≡ some g)
      × (g.estado ≡ 2)
      × (g.tamanio_archivo ≡ 0)
      × (g.nombre_archivo ≡ nombre)
      × (g.bloque_padre ≡ madre)
  pub encuentra : buscar_nodo madre nombre 0 d'.tabla ≡ suc nodo
  pub otros : (j : ℕ) → (nodo ≡ j → ⊥) → get_elem? d'.tabla j ≡ get_elem? d.tabla j

abbrev pub Mkdir : List ℕ → Disco → Disco × ℤ → Type 0
Mkdir path d (d', r) = (Creado path d d' × (r ≡ pos 0)) ⊎ ((d' ≡ d) × (r ≡ pos 1))
