-- ===== src/Sac/Blocks/Search.antt =====
-- A block that is taken (`obtenerBloqueLibre` of Sac-Server/estructuras.c).
use mathlib.Core.Option
use linuse_tp_os.Base.{
  ℕ, zero, suc, ◌≤◌, ◌<◌, ◌≡◌, refl, subst, inl, inr, Bool, true, false, Option, none, some, List,
  [], ◌∷◌, arith, Option-cases, Garantiza, get_elem?, set, get_elem?-set_self, get_elem?-set_ne,
  get_elem?-lt,
}
use linuse_tp_os.Sac.Blocks.{primer_cero, primer_bloque, obtener_bloque_libre, contar_libres}
use linuse_tp_os.Sac.Model.{Disco}

-- The bit `i`, after the first `k`, was 0 and the bits between were 1.
abbrev pub PrimerCero : ℕ → List Bool → Option ℕ → Type 0
PrimerCero k bs none = (j : ℕ) → k ≤ j → (get_elem? bs j ≡ some false) → ⊥
PrimerCero k bs (some i) =
    (k ≤ i) × (get_elem? bs i ≡ some false) × ((j : ℕ) → k ≤ j → j < i → get_elem? bs j ≡ some true)

desplazado :
    (k i : ℕ) (bs : List Bool) → primer_cero k (suc i) bs ≡ Option.map suc (primer_cero k i bs)
unfolding primer_cero
desplazado k i [] = refl
desplazado zero i (false ∷ bs) = refl
desplazado zero i (true ∷ bs) = desplazado zero (suc i) bs
desplazado (suc k) i (b ∷ bs) = desplazado k (suc i) bs

PrimerCero-cons :
    (k : ℕ) (b : Bool) (bs : List Bool) (o : Option ℕ)
    → PrimerCero k bs o
    → PrimerCero (suc k) (b ∷ bs) (Option.map suc o)
PrimerCero-cons k b bs none h = paso
  where
    paso : (j : ℕ) → suc k ≤ j → (get_elem? (b ∷ bs) j ≡ some false) → ⊥
    paso zero l e = omega arith
    paso (suc j) l e = h j (omega arith) e
PrimerCero-cons k b bs (some i) (h, e, m) = (omega arith, e, paso)
  where
    paso : (j : ℕ) → suc k ≤ j → j < suc i → get_elem? (b ∷ bs) j ≡ some true
    paso zero l n = absurd (omega arith)
    paso (suc j) l n = m j (omega arith) (omega arith)

PrimerCero-ocupado :
    (bs : List Bool) (o : Option ℕ)
    → PrimerCero 0 bs o
    → PrimerCero 0 (true ∷ bs) (Option.map suc o)
PrimerCero-ocupado bs none h = paso
  where
    paso : (j : ℕ) → 0 ≤ j → (get_elem? (true ∷ bs) j ≡ some false) → ⊥
    paso zero l e = cc
    paso (suc j) l e = h j (omega arith) e
PrimerCero-ocupado bs (some i) (h, e, m) = (omega arith, e, paso)
  where
    paso : (j : ℕ) → 0 ≤ j → j < suc i → get_elem? (true ∷ bs) j ≡ some true
    paso zero l n = refl
    paso (suc j) l n = m j (omega arith) (omega arith)

pub primer_cero-PrimerCero : (k : ℕ) (bs : List Bool) → PrimerCero k bs (primer_cero k 0 bs)
unfolding primer_cero
primer_cero-PrimerCero k [] = λ j l e. cc
primer_cero-PrimerCero zero (false ∷ bs) = (omega arith, refl, λ j l n. absurd (omega arith))
primer_cero-PrimerCero zero (true ∷ bs) =
    rw (desplazado zero 0 bs)
      (PrimerCero-ocupado bs (primer_cero zero 0 bs) (primer_cero-PrimerCero zero bs))
primer_cero-PrimerCero (suc k) (b ∷ bs) =
    rw (desplazado k 0 bs)
      (PrimerCero-cons k b bs (primer_cero k 0 bs) (primer_cero-PrimerCero k bs))

-- A bit that was 0 is one free block less.
pub contar_libres-set :
    (bs : List Bool) (i : ℕ)
    → get_elem? bs i ≡ some false
    → suc (contar_libres (set bs i true)) ≡ contar_libres bs
unfolding contar_libres
contar_libres-set [] i e = cc
contar_libres-set (false ∷ bs) zero e = refl
contar_libres-set (true ∷ bs) zero e = cc
contar_libres-set (false ∷ bs) (suc i) e = omega (arith, contar_libres-set bs i e)
contar_libres-set (true ∷ bs) (suc i) e = contar_libres-set bs i e

-- The block `i` was taken.
pub record Reserva (d d' : Disco) (i : ℕ) : Type 0 where
  pub desde : primer_bloque d ≤ i
  pub libre : get_elem? d.bitmap i ≡ some false
  pub antes : (j : ℕ) → primer_bloque d ≤ j → j < i → get_elem? d.bitmap j ≡ some true
  pub ocupado : get_elem? d'.bitmap i ≡ some true
  pub otros : (j : ℕ) → (i ≡ j → ⊥) → get_elem? d'.bitmap j ≡ get_elem? d.bitmap j
  pub cuenta : suc (contar_libres d'.bitmap) ≡ contar_libres d.bitmap
  pub resto : record d' { bitmap = d.bitmap } ≡ d

-- Where some block of data is free, `obtenerBloqueLibre` ends: it returns the first one after the
-- header, the bitmap and the table of nodes, sets its bit and no other, and the disk has one free block
-- less.
pub obtener_bloque_libre-Reserva :
    (d : Disco) (j : ℕ)
    → primer_bloque d ≤ j
    → get_elem? d.bitmap j ≡ some false
    → Garantiza (λ r. Reserva d r.0 r.1) (obtener_bloque_libre d)
unfolding obtener_bloque_libre
obtener_bloque_libre-Reserva d j l e =
    elim (Option-cases (primer_cero (primer_bloque d) 0 d.bitmap)) [
      | inl f ↦ absurd (
          subst (PrimerCero (primer_bloque d) d.bitmap) f
            (primer_cero-PrimerCero (primer_bloque d) d.bitmap) j l e)
      | inr (i, f) ↦
          let (a, b, c) =
            subst (PrimerCero (primer_bloque d) d.bitmap) f
              (primer_cero-PrimerCero (primer_bloque d) d.bitmap) in
          rw (f, obtener_bloque_libre)
            (record {
              desde = a;
              libre = b;
              antes = c;
              ocupado = get_elem?-set_self d.bitmap i true (get_elem?-lt d.bitmap i b);
              otros = λ k n. get_elem?-set_ne d.bitmap {i = i} {j = k} true n;
              cuenta = contar_libres-set d.bitmap i b;
              resto = refl;
            })
    ]
