-- ===== src/Sac/Nodes/Removal.antt =====
-- A directory that is removed (`o_rmdir2` of Sac-Server/operaciones.c).
use linuse_tp_os.Base.{
  ℕ, zero, suc, ◌≡◌, refl, subst, ◌⊎◌, inl, inr, false, ◌||◌, some, List, [], ◌∷◌, arith, ◌==◌,
  Bool-cases, Option-cases, ℤ, pos, negsuc, Resultado, ok, fallo, ◌>>=◌, en_arreglo, Logra,
  Logra->>=, get_elem?, set, any, get_elem?-set_self, get_elem?-set_ne, get_elem?-lt,
}
use linuse_tp_os.Sac.Model.{Archivo, Disco}
use linuse_tp_os.Sac.Paths.{ningun_nodo, dame_nodo_de}
use linuse_tp_os.Sac.Nodes.{indice_de, es_hijo, o_rmdir2}

any-false :
    (yo : ℕ) (fs : List Archivo) (j : ℕ) (g : Archivo)
    → any (es_hijo yo) fs ≡ false
    → get_elem? fs j ≡ some g
    → es_hijo yo g ≡ false
any-false yo [] j g h e = cc
any-false yo (f ∷ fs) zero g h e =
    let y : f ≡ g = cc in subst (λ z. es_hijo yo z ≡ false) y (ground arith)
any-false yo (f ∷ fs) (suc j) g h e = any-false yo fs j g (ground arith) e

-- Only the node of the path changed, which is now free; it was nobody's directory.
pub record Borrado (path : List ℕ) (d d' : Disco) : Type 0 where
  pub nodo : ℕ
  pub archivo : Archivo
  pub numero : dame_nodo_de path d.tabla ≡ ok (suc nodo)
  pub estaba : get_elem? d.tabla nodo ≡ some archivo
  pub libre : get_elem? d'.tabla nodo ≡ some (record archivo { estado = 0 })
  pub otros : (j : ℕ) → (nodo ≡ j → ⊥) → get_elem? d'.tabla j ≡ get_elem? d.tabla j
  pub vacio : (j : ℕ) (g : Archivo) → get_elem? d.tabla j ≡ some g → es_hijo (suc nodo) g ≡ false

-- The answer 0 with the node removed, or -1 with nothing changed.
abbrev pub Rmdir : List ℕ → Disco → Disco × ℤ → Type 0
Rmdir path d (d', r) = (Borrado path d d' × (r ≡ pos 0)) ⊎ ((d' ≡ d) × (r ≡ negsuc 0))

-- Where `o_rmdir2` ends, it answers 0 and has freed the node of the path and no other, of which no node
-- in use was a child, or it answers -1 and has changed nothing.
pub o_rmdir2-Rmdir : (path : List ℕ) (d : Disco) → Logra (Rmdir path d) (o_rmdir2 path d)
unfolding o_rmdir2
o_rmdir2-Rmdir path d =
    Logra->>= (λ n. Unit {0}) (Rmdir path d) (dame_nodo_de path d.tabla) _
      (trivial (dame_nodo_de path d.tabla))
      λ yo e _. elim (Bool-cases (yo == ningun_nodo || any (es_hijo yo) d.tabla)) [
        | inl b ↦ rw b (inr (refl, refl))
        | inr b ↦ rw b (quitar yo e (ground arith))
      ]
  where
    trivial : (m : Resultado ℕ) → Logra (λ n. Unit {0}) m
    trivial (ok n) = tt
    trivial (fallo x) = tt

    quitar :
        (yo : ℕ)
        → dame_nodo_de path d.tabla ≡ ok yo
        → any (es_hijo yo) d.tabla ≡ false
        → Logra (Rmdir path d) (
            indice_de yo >>= λ i. en_arreglo (get_elem? d.tabla i) >>= λ f.
            ok (record d { tabla = set d.tabla i (record f { estado = 0 }) }, pos 0))
    quitar zero e v = tt
    quitar (suc i) e v = elim (Option-cases (get_elem? d.tabla i)) [
      | inl f ↦ rw f tt
      | inr (a, f) ↦ rw f (
          inl (
            record {
              nodo = i;
              archivo = a;
              numero = e;
              estaba = f;
              libre = get_elem?-set_self d.tabla i _ (get_elem?-lt d.tabla i f);
              otros = λ j n. get_elem?-set_ne d.tabla {i = i} {j = j} _ n;
              vacio = λ j g h. any-false (suc i) d.tabla j g v h;
            },
            refl,
          ))
    ]
