-- ===== src/Sac/Directories/Tree.antt =====
-- The table of nodes as a tree, and what the removal of a directory leaves of it
-- (Sac-Server/operaciones.c).
use linuse_tp_os.Base.{
  ℕ, suc, ◌<◌, ◌≡◌, refl, sym, ap, ◌∙◌, subst, ◌≢◌, ◌⊎◌, inl, inr, some, List, arith, ◌==◌, ==_iff,
  Bool-cases, get_elem?, set, get_elem?-set_self, get_elem?-set_ne, get_elem?-lt,
}
use linuse_tp_os.Sac.Model.{Archivo, Disco}
use linuse_tp_os.Sac.Directories.Removal.{EnUso, NoEsta}

-- Each file or directory of the 1024 nodes is in the root, whose number is 0, or in a directory.
abbrev pub IsArbol : Disco → Type 0
IsArbol d =
    (j : ℕ) (f : Archivo)
    → j < 1024
    → get_elem? d.tabla j ≡ some f
    → EnUso f
    → (f.bloque_padre ≡ 0)
      ⊎ ((k : ℕ) × (g : Archivo) × (f.bloque_padre ≡ suc k)
          × (get_elem? d.tabla k ≡ some g)
          × (g.estado ≡ 2))

-- The node at the index `j` is below the directory of number `mi`, in the table `t`.
pub data Bajo (t : List Archivo) (mi : ℕ) : ℕ → Type 0 where
  hijo : {j : ℕ} (f : Archivo) → get_elem? t j ≡ some f → f.bloque_padre ≡ mi → Bajo t mi j
  nieto :
      {j k : ℕ} (f : Archivo)
      → Bajo t mi k
      → get_elem? t j ≡ some f
      → f.bloque_padre ≡ suc k
      → Bajo t mi j

-- What a table has after a write.
pub lee-set :
    (t : List Archivo) (i j : ℕ) (f g h : Archivo)
    → get_elem? t i ≡ some f
    → get_elem? (set t i g) j ≡ some h
    → ((i ≡ j) × (h ≡ g)) ⊎ ((i ≢ j) × (get_elem? t j ≡ some h))
lee-set t i j f g h x y = elim (Bool-cases (i == j)) [
  | inl b ↦
      let p : i ≡ j = (==_iff i j).0 b in
      let z : get_elem? (set t i g) i ≡ some g = get_elem?-set_self t i g (get_elem?-lt t i x) in
      let w : some h ≡ some g = sym y ∙ subst (λ k. get_elem? (set t i g) k ≡ some g) p z in
      inl (p, cc)
  | inr b ↦
      let c : i ≢ j = λ p. ground (arith, ==_iff i j) in
      inr (c, sym (get_elem?-set_ne t {i = i} {j = j} g c) ∙ y)
]

-- No file or directory is in the node at an index.
abbrev pub SinHijos : ℕ → Disco → Type 0
SinHijos i d =
    (j : ℕ) (f : Archivo)
    → j < 1024
    → get_elem? d.tabla j ≡ some f
    → EnUso f
    → f.bloque_padre ≡ suc i
    → ⊥

pub NoEsta-SinHijos : (i : ℕ) (d : Disco) → ((j : ℕ) → j < 1024 → NoEsta (suc i) j d) → SinHijos i d
NoEsta-SinHijos i d h j f l x u p =
    let (g, y, n) = h j l in
    let e : some g ≡ some f = sym y ∙ x in
    let e' : f ≡ g = cc in n (subst (λ z. z.bloque_padre ≡ suc i) e' p) (subst EnUso e' u)

pub archivo-SinHijos :
    (i : ℕ) (f : Archivo) (d : Disco)
    → IsArbol d
    → get_elem? d.tabla i ≡ some f
    → f.estado ≡ 1
    → SinHijos i d
archivo-SinHijos i f d a x e j g l y u p = elim (a j g l y u) [
  | inl z ↦ omega (arith, z, p)
  | inr (k, h, q, w, r) ↦
      let s : k ≡ i = omega (arith, q, p) in
      let v : some h ≡ some f = sym (subst (λ n. get_elem? d.tabla n ≡ some h) s w) ∙ x in
      let v' : h ≡ f = cc in omega (arith, r, e, ap (λ z. z.estado) v')
]

-- A node is written that keeps its directory, and its kind where something is in it.
pub IsArbol-set :
    (d : Disco) (i : ℕ) (f g : Archivo)
    → IsArbol d
    → get_elem? d.tabla i ≡ some f
    → g.bloque_padre ≡ f.bloque_padre
    → (g.estado ≡ f.estado) ⊎ ((g.estado ≡ 0) × SinHijos i d)
    → IsArbol (record d { tabla = set d.tabla i g })
IsArbol-set d i f g a x p c j h l y u = elim (lee-set d.tabla i j f g h x y) [
  | inl (q, r) ↦
      let x' : get_elem? d.tabla j ≡ some f = subst (λ n. get_elem? d.tabla n ≡ some f) q x in
      let p' : h.bloque_padre ≡ f.bloque_padre = ap (λ z. z.bloque_padre) r ∙ p in
      elim c [
        | inl e ↦
            let v : EnUso f = subst (λ n. (n ≡ 1) ⊎ (n ≡ 2)) (ap (λ z. z.estado) r ∙ e) u in
            sigue_en h f p' x' v
        | inr (z, s) ↦
            let w : h.estado ≡ 0 = ap (λ z. z.estado) r ∙ z in
            elim u [ inl t ↦ absurd (omega (arith, w, t)) | inr t ↦ absurd (omega (arith, w, t)) ]
      ]
  | inr (n, y') ↦ sigue_en h h refl y' u
]
  where
    -- The directory of a node is still there.
    sigue_en :
        (h f' : Archivo)
        → h.bloque_padre ≡ f'.bloque_padre
        → get_elem? d.tabla j ≡ some f'
        → EnUso f'
        → (h.bloque_padre ≡ 0)
          ⊎ ((k : ℕ) × (m : Archivo) × (h.bloque_padre ≡ suc k)
              × (get_elem? (set d.tabla i g) k ≡ some m)
              × (m.estado ≡ 2))
    sigue_en h f' q y' v = elim (a j f' l y' v) [
      | inl z ↦ inl (q ∙ z)
      | inr (k, m, r, w, t) ↦ elim (Bool-cases (i == k)) [
        | inl b ↦
            let s : i ≡ k = (==_iff i k).0 b in
            let w' : some f ≡ some m =
              sym x ∙ subst (λ n. get_elem? d.tabla n ≡ some m) (sym s) w in
            let w2 : f ≡ m = cc in
            let z : get_elem? (set d.tabla i g) k ≡ some g =
              subst (λ n. get_elem? (set d.tabla i g) n ≡ some g) s
                (get_elem?-set_self d.tabla i g (get_elem?-lt d.tabla i x)) in
            elim c [
              | inl e ↦ inr (k, g, q ∙ r, z, e ∙ ap (λ z. z.estado) w2 ∙ t)
              | inr (e, o) ↦ absurd (o j f' l y' v (r ∙ ap suc (sym s)))
            ]
        | inr b ↦
            let s : i ≢ k = λ p. ground (arith, ==_iff i k) in
            inr (k, m, q ∙ r, get_elem?-set_ne d.tabla {i = i} {j = k} g s ∙ w, t)
      ]
    ]
