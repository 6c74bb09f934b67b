-- ===== src/Sac/Tests/Directories.antt =====
-- The directory /a, with the directory /a/b and the file /a/b/c, that is removed.
use linuse_tp_os.Base.{
  ℕ, zero, suc, ◌≡◌, refl, sym, ap, inl, inr, some, List, [], ◌∷◌, arith, Logra, get_elem?,
}
use linuse_tp_os.Sac.Model.{Archivo, Disco}
use linuse_tp_os.Sac.Tests.{disco, un_nodo, libres}
use linuse_tp_os.Sac.Directories.{o_rmdir}
use linuse_tp_os.Sac.Directories.Tree.{IsArbol}
use linuse_tp_os.Sac.Directories.Subtree.{Podado, o_rmdir-Podado}
use linuse_tp_os.Sac.Directories.Removal.{EnUso}

abbrev ruta_a : List ℕ
ruta_a = 47 ∷ 97 ∷ []

abbrev con_rama : Disco
con_rama = record disco {
  tabla = un_nodo 2 (97 ∷ []) 0 ∷ un_nodo 2 (98 ∷ []) 1 ∷ un_nodo 1 (99 ∷ []) 2 ∷ libres 1021;
}

libres-EnUso : (n j : ℕ) (f : Archivo) → get_elem? (libres n) j ≡ some f → EnUso f → ⊥
libres-EnUso zero j f e u = cc
libres-EnUso (suc n) zero f e u =
    let x : f ≡ un_nodo 0 [] 0 = cc in
    elim u [
      | inl a ↦ omega (arith, a, ap (λ z. z.estado) x)
      | inr a ↦ omega (arith, a, ap (λ z. z.estado) x)
    ]
libres-EnUso (suc n) (suc j) f e u = libres-EnUso n j f e u

con_rama-IsArbol : IsArbol con_rama
con_rama-IsArbol zero f l e u =
    let x : un_nodo 2 (97 ∷ []) 0 ≡ f = cc in inl (sym (ap (λ z. z.bloque_padre) x))
con_rama-IsArbol (suc zero) f l e u =
    let x : un_nodo 2 (98 ∷ []) 1 ≡ f = cc in
    inr (0, _, sym (ap (λ z. z.bloque_padre) x), refl, refl)
con_rama-IsArbol (suc (suc zero)) f l e u =
    let x : un_nodo 1 (99 ∷ []) 2 ≡ f = cc in
    inr (1, _, sym (ap (λ z. z.bloque_padre) x), refl, refl)
con_rama-IsArbol (suc (suc (suc j))) f l e u = absurd (libres-EnUso 1021 j f e u)

o_rmdir-Podado_example : Logra (Podado ruta_a con_rama) (o_rmdir ruta_a con_rama)
o_rmdir-Podado_example = o_rmdir-Podado ruta_a con_rama con_rama-IsArbol
