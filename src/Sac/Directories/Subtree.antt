-- ===== src/Sac/Directories/Subtree.antt =====
-- What `o_rmdir` removes, and what it leaves (Sac-Server/operaciones.c).
use linuse_tp_os.Base.{
  ℕ, zero, suc, ◌-◌, ◌<◌, ◌≡◌, refl, sym, ap, ◌∙◌, subst, ◌≢◌, ◌⊎◌, inl, inr, some, List, arith,
  ◌==◌, ==_iff, Bool-cases, Option-cases, ℤ, pos, negsuc, Resultado, ok, ◌>>=◌, Logra, Logra->>=,
  Logra-resto, Logra-if, Logra-ambos, get_elem?, set, get_elem?-set_self, get_elem?-set_ne,
  get_elem?-lt,
}
use linuse_tp_os.Sac.Model.{Archivo, Disco}
use linuse_tp_os.Sac.Paths.{ningun_nodo, dame_nodo_de}
use linuse_tp_os.Sac.Nodes.{indice_de, es_hijo}
use linuse_tp_os.Sac.Freeing.{eliminar_nodos}
use linuse_tp_os.Sac.Directories.{
  borrar_nodo, eliminar_archivo, eliminar_hijo, eliminar_hijos, eliminar_recursivamente, o_rmdir,
}
use linuse_tp_os.Sac.Directories.Emptying.{Restos, Conserva, eliminar_nodos-Conserva}
use linuse_tp_os.Sac.Directories.Removal.{
  NodoBorrado, NoEsta, NoEsta-Restos, borrar_nodo-NodoBorrado, eliminar_recursivamente-NoEsta,
}
use linuse_tp_os.Sac.Directories.Tree.{
  IsArbol, Bajo, hijo, nieto, lee-set, SinHijos, NoEsta-SinHijos, archivo-SinHijos, IsArbol-set,
}

-- Against a first table: each node is as it was, in its directory and of its kind, or is below `mi` or
-- at `mi` itself.
module _ (t : List Archivo) (mi : ℕ) where
  abbrev Dentro : ℕ → Type 0
  Dentro i = (mi ≡ suc i) ⊎ Bajo t mi i

  abbrev pub Quita : Disco → Type 0
  Quita e =
      (j : ℕ) (g : Archivo)
      → get_elem? e.tabla j ≡ some g
      → (f : Archivo) × (get_elem? t j ≡ some f)
        × (g.bloque_padre ≡ f.bloque_padre)
        × ((g.estado ≡ f.estado) ⊎ Dentro j)

  -- The table is a tree, and only nodes of the directory were removed.
  abbrev Sigue : Disco → Type 0
  Sigue e = IsArbol e × Quita e

  Quita-set :
      (d : Disco) (i : ℕ) (f g : Archivo)
      → Quita d
      → get_elem? d.tabla i ≡ some f
      → g.bloque_padre ≡ f.bloque_padre
      → (g.estado ≡ f.estado) ⊎ Dentro i
      → Quita (record d { tabla = set d.tabla i g })
  Quita-set d i f g q x p c j h y = elim (lee-set d.tabla i j f g h x y) [
    | inr (n, z) ↦ q j h z
    | inl (e, r) ↦
        let (k, w, s, v) = q i f x in
        (
          k,
          subst (λ n. get_elem? t n ≡ some k) e w,
          ap (λ z. z.bloque_padre) r ∙ p ∙ s,
          subst (λ n. (h.estado ≡ k.estado) ⊎ Dentro n) e
              (elim c [
                | inr b ↦ inr b
                | inl a ↦ elim v [ inr b ↦ inr b | inl u ↦ inl (ap (λ z. z.estado) r ∙ a ∙ u) ]
              ]),
        )
  ]

  borrar_nodo-Sigue :
      (i : ℕ) (d : Disco) → Sigue d → Dentro i → SinHijos i d → Logra Sigue (borrar_nodo i d)
  unfolding borrar_nodo
  borrar_nodo-Sigue i d (a, q) b s = elim (Option-cases (get_elem? d.tabla i)) [
    | inl x ↦ rw x tt
    | inr (f, x) ↦
        let g = record f { estado = 0 } in
        rw x (IsArbol-set d i f g a x refl (inr (refl, s)), Quita-set d i f g q x refl (inr b))
  ]

  -- The blocks of a node are freed, and the table keeps directories and kinds.
  liberar-Sigue :
      (j : ℕ) (f f1 : Archivo) (d d1 : Disco)
      → Sigue d
      → get_elem? d.tabla j ≡ some f
      → Conserva f d (f1, d1)
      → Sigue (record d1 { tabla = set d1.tabla j f1 })
  liberar-Sigue j f f1 d d1 (a, q) x (e, p, r) =
      subst (λ l. Sigue (record d1 { tabla = set l j f1 })) (sym r)
        (IsArbol-set d j f f1 a x p (inl e), Quita-set d j f f1 q x p (inl e))

  eliminar_archivo-Sigue :
      (i : ℕ) (h : Archivo) (d : Disco)
      → Sigue d
      → Dentro i
      → get_elem? d.tabla i ≡ some h
      → h.estado ≡ 1
      → Logra Sigue (eliminar_archivo i d)
  unfolding eliminar_archivo
  eliminar_archivo-Sigue i h d s b y e1 = Logra-resto Sigue (indice_de i) _ λ j v.
      elim (Option-cases (get_elem? d.tabla j)) [
        | inl x ↦ rw x tt
        | inr (f, x) ↦ rw x (
            Logra->>= (λ (r : ℕ × (Archivo × Disco)). Conserva f d r.1) Sigue
              (eliminar_nodos 1 0 0 f d) _ (eliminar_nodos-Conserva 1 0 0 f d)
              λ r z c.
                let d2 = record r.1.1 { tabla = set r.1.1.tabla j r.1.0 } in
                let s2 = liberar-Sigue j f r.1.0 d r.1.1 s x c in
                borrar_nodo-Sigue i d2 s2 b (queda j f r.1.0 r.1.1 x c s2.0))
      ]
    where
      -- The file is still one, and so nothing is in it.
      queda :
          (j : ℕ) (f f1 : Archivo) (d1 : Disco)
          → get_elem? d.tabla j ≡ some f
          → Conserva f d (f1, d1)
          → IsArbol (record d1 { tabla = set d1.tabla j f1 })
          → SinHijos i (record d1 { tabla = set d1.tabla j f1 })
      queda j f f1 d1 x (e, p, r) a = elim (Bool-cases (j == i)) [
        | inl b1 ↦
            let q : j ≡ i = (==_iff j i).0 b1 in
            let w : some f ≡ some h = sym x ∙ subst (λ n. get_elem? d.tabla n ≡ some h) (sym q) y in
            let w2 : f ≡ h = cc in
            let z : get_elem? (set d1.tabla j f1) i ≡ some f1 =
              subst (λ n. get_elem? (set d1.tabla j f1) n ≡ some f1) q
                (get_elem?-set_self d1.tabla j f1
                  (get_elem?-lt d1.tabla j (ap (λ l. get_elem? l j) r ∙ x))) in
            archivo-SinHijos i f1 (record d1 { tabla = set d1.tabla j f1 }) a z
              (e ∙ ap (λ k. k.estado) w2 ∙ e1)
        | inr b1 ↦
            let n : j ≢ i = λ q. ground (arith, ==_iff j i) in
            archivo-SinHijos i h (record d1 { tabla = set d1.tabla j f1 }) a
              (get_elem?-set_ne d1.tabla {i = j} {j = i} f1 n ∙ ap (λ l. get_elem? l i) r ∙ y) e1
      ]

  -- The number of a directory that is `mi` or below it.
  abbrev EnRama : ℕ → Type 0
  EnRama n = (n ≡ mi) ⊎ ((k : ℕ) × (n ≡ suc k) × Bajo t mi k)

  hijo-Bajo :
      (n i : ℕ) (f : Archivo) (d : Disco)
      → EnRama n
      → Quita d
      → get_elem? d.tabla i ≡ some f
      → f.bloque_padre ≡ n
      → Bajo t mi i
  hijo-Bajo n i f d r q x p =
      let (g, y, s, v) = q i f x in
      elim r [ inl e ↦ hijo g y (sym s ∙ p ∙ e) | inr (k, e, b) ↦ nieto g b y (sym s ∙ p ∙ e) ]

  module _ (baja : ℕ → Disco → Resultado Disco)
      (baja-Sigue : (n : ℕ) (d : Disco)
        → EnRama n
        → Sigue d
        → Logra (λ e. Sigue e × ((j : ℕ) → j < 1024 → NoEsta n j e)) (baja n d)) where
    eliminar_hijo-Sigue :
        (n i : ℕ) (d : Disco) → EnRama n → Sigue d → Logra Sigue (eliminar_hijo baja n i d)
    unfolding eliminar_hijo
    eliminar_hijo-Sigue n i d r s = elim (Option-cases (get_elem? d.tabla i)) [
      | inl x ↦ rw x tt
      | inr (f, x) ↦ elim (Bool-cases (es_hijo n f)) [
        | inr b ↦ rw (x, b) s
        | inl b ↦
            let p : f.bloque_padre ≡ n = ground (arith, ==_iff f.bloque_padre n) in
            let bajo = hijo-Bajo n i f d r s.1 x p in
            elim (Bool-cases (f.estado == 1)) [
              | inl c ↦
                  rw (x, b, c)
                    (eliminar_archivo-Sigue i f d s (inr bajo) x ((==_iff f.estado 1).0 c))
              | inr c ↦ elim (Bool-cases (f.estado == 2)) [
                | inl g ↦
                    rw (x, b, c, g)
                      (Logra->>=
                        (λ (e : Disco). Sigue e × ((j : ℕ) → j < 1024 → NoEsta (suc i) j e)) Sigue
                        (baja (suc i) d) _ (baja-Sigue (suc i) d (inr (i, refl, bajo)) s)
                        λ d1 y h. borrar_nodo-Sigue i d1 h.0 (inr bajo) (NoEsta-SinHijos i d1 h.1))
                | inr g ↦ rw (x, b, c, g) s
              ]
            ]
      ]
    ]

    eliminar_hijos-Sigue :
        (n k : ℕ) (d : Disco) → EnRama n → Sigue d → Logra Sigue (eliminar_hijos baja n k d)
    unfolding eliminar_hijos
    eliminar_hijos-Sigue n zero d r s = s
    eliminar_hijos-Sigue n (suc k) d r s =
        Logra->>= Sigue Sigue (eliminar_hijo baja n (1024 - suc k) d) _
          (eliminar_hijo-Sigue n (1024 - suc k) d r s) λ d1 y h. eliminar_hijos-Sigue n k d1 r h

  eliminar_recursivamente-Sigue :
      (m n : ℕ) (d : Disco)
      → EnRama n
      → Sigue d
      → Logra (λ e. Sigue e × ((j : ℕ) → j < 1024 → NoEsta n j e)) (eliminar_recursivamente m n d)
  unfolding eliminar_recursivamente
  eliminar_recursivamente-Sigue zero n d r s = tt
  eliminar_recursivamente-Sigue (suc m) n d r s =
      Logra-ambos Sigue (λ (e : Disco). Restos d e × ((j : ℕ) → j < 1024 → NoEsta n j e))
        (λ (e : Disco). Sigue e × ((j : ℕ) → j < 1024 → NoEsta n j e))
        (eliminar_recursivamente (suc m) n d)
        (eliminar_hijos-Sigue (eliminar_recursivamente m) (eliminar_recursivamente-Sigue m) n 1024 d
          r s)
        (eliminar_recursivamente-NoEsta (suc m) n d) λ e h k. (h, k.1)

-- The path names no node, and nothing has changed; or the node that it names is removed, no file or
-- directory is in it, the table is a tree, and each node is in its directory as before, and of its kind
-- unless it is the one of the path or below it.
abbrev pub Podado : List ℕ → Disco → Disco × ℤ → Type 0
Podado path d r =
    ((dame_nodo_de path d.tabla ≡ ok ningun_nodo) × (r ≡ (d, negsuc 0)))
    ⊎ ((i : ℕ) × (dame_nodo_de path d.tabla ≡ ok (suc i))
        × (r.1 ≡ pos 0)
        × NodoBorrado i r.0
        × IsArbol r.0
        × Quita d.tabla (suc i) r.0
        × ((j : ℕ) → j < 1024 → NoEsta (suc i) j r.0))

rmdir_en-Podado :
    (path : List ℕ) (mi : ℕ) (d : Disco)
    → IsArbol d
    → dame_nodo_de path d.tabla ≡ ok mi
    → Logra (Podado path d) (do
      i ← indice_de mi
      d1 ← eliminar_recursivamente 1025 mi d
      d2 ← borrar_nodo i d1
      ok (d2, pos 0))
unfolding indice_de
rmdir_en-Podado path zero d a x = tt
rmdir_en-Podado path (suc i) d a x =
    let t = d.tabla in
    Logra->>= (λ (e : Disco). Sigue t (suc i) e × ((j : ℕ) → j < 1024 → NoEsta (suc i) j e))
      (Podado path d) (eliminar_recursivamente 1025 (suc i) d) _
      (eliminar_recursivamente-Sigue t (suc i) 1025 (suc i) d (inl refl)
        (a, λ j g y. (g, y, refl, inl refl)))
      λ d1 y h.
        Logra->>= (λ (e : Disco). Sigue t (suc i) e × (Restos d1 e × NodoBorrado i e))
          (Podado path d) (borrar_nodo i d1) _
          (Logra-ambos (Sigue t (suc i)) (λ (e : Disco). Restos d1 e × NodoBorrado i e)
            (λ (e : Disco). Sigue t (suc i) e × (Restos d1 e × NodoBorrado i e)) (borrar_nodo i d1)
            (borrar_nodo-Sigue t (suc i) i d1 h.0 (inl refl) (NoEsta-SinHijos i d1 h.1))
            (borrar_nodo-NodoBorrado i d1) λ e u v. (u, v))
          λ d2 z g.
            inr (
              i,
              x,
              refl,
              g.1.1,
              g.0.0,
              g.0.1,
              λ j l. NoEsta-Restos (suc i) j d1 d2 (h.1 j l) g.1.0,
            )

-- In a table where each file or directory of the 1024 nodes is in the root or in a directory: where
-- `o_rmdir` ends, it answers -1 for a path that names no node and changes nothing; or it answers 0, the
-- node that the path names is removed and no file or directory is in it, each file or directory that is
-- left is in the root or in a directory that is left, and every node is in its directory as before, and
-- of its kind unless it is the node of the path or below it.
pub o_rmdir-Podado :
    (path : List ℕ) (d : Disco) → IsArbol d → Logra (Podado path d) (o_rmdir path d)
unfolding o_rmdir
o_rmdir-Podado path d a = Logra-resto (Podado path d) (dame_nodo_de path d.tabla) _ λ mi x.
    Logra-if (Podado path d) (mi == ningun_nodo) _ _
      (λ b. inl (x ∙ ap ok ((==_iff mi ningun_nodo).0 b), refl))
      (λ b. rmdir_en-Podado path mi d a x)
