-- ===== src/Muse/Clock/Pass.antt =====
-- What one pass of `clockModificado` visits (Memoria/muse.c).
use linuse_tp_os.Base.{
  ℕ, zero, suc, ◌+◌, ◌-◌, ◌≤◌, ◌<◌, ◌≡◌, refl, sym, ap, ◌∙◌, subst, inl, inr, Bool, true, false,
  none, some, List, arith, ltb, leb, ◌==◌, if◌then◌else◌, ==_iff, Bool-cases, Garantiza,
  Garantiza-desref, Garantiza-weaken, length, get_elem?, set, length-set, get_elem?-set_self,
  get_elem?-set_ne, get_elem?-some, get_elem?-lt,
}
use linuse_tp_os.Muse.Model.{Frame}
use linuse_tp_os.Muse.Clock.{incrementar_puntero, cumple, apagar, Recorrido, recorrer}

-- How many steps the pointer takes from `p` to `j`.
abbrev pub distancia : ℕ → ℕ → ℕ → ℕ
distancia c p j = if leb p j then j - p else j + c - p

-- The pointer after `n` steps, of at most `c`.
abbrev pub avanzado : ℕ → ℕ → ℕ → ℕ
avanzado c p n = if ltb (p + n) c then p + n else p + n - c

-- `k` frames from the pointer were seen and not chosen, and the others are as they were.
pub record Visto (limpia : Bool) (m c p k : ℕ) (fs gs : List Frame) : Type 0 where
  pub largo : length gs ≡ c
  pub vistos :
      (j : ℕ) {f : Frame}
      → get_elem? fs j ≡ some f
      → distancia c p j < k
      → (cumple m f ≡ false) × (get_elem? gs j ≡ some (apagar limpia f))
  pub otros : (j : ℕ) → j < c → k ≤ distancia c p j → get_elem? gs j ≡ get_elem? fs j

-- The frame that was chosen.
pub record Hallado (limpia : Bool) (m c p : ℕ) (fs gs : List Frame) (i q : ℕ) : Type 0 where
  pub dentro : i < c
  pub puntero : q ≡ incrementar_puntero c i
  pub marco : Frame
  pub esta : get_elem? fs i ≡ some marco
  pub pasa : cumple m marco ≡ true
  pub visto : Visto limpia m c p (distancia c p i) fs gs

abbrev pub Pasada : Bool → ℕ → ℕ → ℕ → List Frame → ℕ → Recorrido → Type 0
Pasada limpia m c n fs p (some i, gs, q) = Hallado limpia m c p fs gs i q × (distancia c p i < n)
Pasada limpia m c n fs p (none, gs, q) = Visto limpia m c p n fs gs × (q ≡ avanzado c p n)

incrementar_puntero-lt : (c p : ℕ) → p < c → incrementar_puntero c p < c
unfolding incrementar_puntero
incrementar_puntero-lt c p h = ground arith

distancia-incrementar :
    (c p j : ℕ)
    → p < c
    → j < c
    → ((p ≡ j) → ⊥)
    → distancia c p j ≡ suc (distancia c (incrementar_puntero c p) j)
unfolding incrementar_puntero
distancia-incrementar c p j h g n = ground arith

distancia-ultima : (c p : ℕ) → p < c → suc (distancia c (incrementar_puntero c p) p) ≡ c
unfolding incrementar_puntero
distancia-ultima c p h = ground arith

Visto-vacio :
    (limpia : Bool) (m c p : ℕ) (fs : List Frame) → length fs ≡ c → Visto limpia m c p 0 fs fs
Visto-vacio limpia m c p fs l = record {
  largo = l;
  vistos = λ j e h. absurd (omega arith);
  otros = λ j h g. refl;
}

Visto-suc :
    (limpia : Bool) (m c p k : ℕ) (f : Frame) (fs gs : List Frame)
    → p < c
    → length fs ≡ c
    → suc k ≤ c
    → get_elem? fs p ≡ some f
    → cumple m f ≡ false
    → Visto limpia m c (incrementar_puntero c p) k (set fs p (apagar limpia f)) gs
    → Visto limpia m c p (suc k) fs gs
Visto-suc limpia m c p k f fs gs h l b e x v =
    let u = distancia-ultima c p h in
    record {
      largo = v.largo;
      vistos = λ j {f = g} a d. elim (Bool-cases (p == j)) [
        | inl t ↦
            let t' : p ≡ j = (==_iff p j).0 t in
            let w : some f ≡ some g = cc in
            let w' : f ≡ g = cc in
            let y = v.otros p h (omega arith) in
            let z = get_elem?-set_self fs p (apagar limpia f) (omega arith) in (cc, cc)
        | inr t ↦
            let t' : (p ≡ j) → ⊥ = λ i. ground (arith, ==_iff p j) in
            let y = get_elem?-set_ne fs {i = p} {j = j} (apagar limpia f) t' in
            v.vistos j (y ∙ a) (
              omega (
                arith,
                get_elem?-lt fs j a,
                distancia-incrementar c p j h (omega (arith, get_elem?-lt fs j a)) t',
              ))
      ];
      otros = λ j a d.
          let t' : (p ≡ j) → ⊥ = λ i. ground arith in
          v.otros j a (omega (arith, distancia-incrementar c p j h a t'))
          ∙ get_elem?-set_ne fs {i = p} {j = j} (apagar limpia f) t';
    }

avanzado-incrementar :
    (c p n : ℕ) → p < c → suc n ≤ c → avanzado c (incrementar_puntero c p) n ≡ avanzado c p (suc n)
unfolding incrementar_puntero
avanzado-incrementar c p n h b = ground arith

distancia_cero : (c p : ℕ) → distancia c p p ≡ 0
distancia_cero c p = ground arith

Pasada-suc :
    (limpia : Bool) (m c p n : ℕ) (f : Frame) (fs : List Frame)
    → p < c
    → length fs ≡ c
    → suc n ≤ c
    → get_elem? fs p ≡ some f
    → cumple m f ≡ false
    → (r : Recorrido) → Pasada limpia m c n (set fs p (apagar limpia f)) (incrementar_puntero c p) r
    → Pasada limpia m c (suc n) fs p r
Pasada-suc limpia m c p n f fs h l b e x (none, gs, q) (v, w) =
    (Visto-suc limpia m c p n f fs gs h l b e x v, w ∙ avanzado-incrementar c p n h b)
Pasada-suc limpia m c p n f fs h l b e x (some i, gs, q) (v, w) =
    let t : (p ≡ i) → ⊥ =
      λ y. omega (arith, distancia-ultima c p h, ap (distancia c (incrementar_puntero c p)) y) in
    let d = distancia-incrementar c p i h v.dentro t in
    let k = distancia c (incrementar_puntero c p) i in
    (
      record {
        dentro = v.dentro;
        puntero = v.puntero;
        marco = v.marco;
        esta = sym (get_elem?-set_ne fs {i = p} {j = i} (apagar limpia f) t) ∙ v.esta;
        pasa = v.pasa;
        visto =
            subst (λ z. Visto limpia m c p z fs gs) (sym d)
              (Visto-suc limpia m c p k f fs gs h l (omega arith) e x v.visto);
      },
      omega arith,
    )

-- A pass ends: it finds the first frame that passes the test, or sees them all and none does.
pub recorrer-Pasada :
    (limpia : Bool) (m c n : ℕ) (fs : List Frame) (p : ℕ)
    → length fs ≡ c
    → p < c
    → n ≤ c
    → Garantiza (Pasada limpia m c n fs p) (recorrer limpia m c n fs p)
unfolding recorrer
recorrer-Pasada limpia m c zero fs p l h b = (Visto-vacio limpia m c p fs l, ground arith)
recorrer-Pasada limpia m c (suc n) fs p l h b =
    let (f, e) = get_elem?-some fs p (omega arith) in
    Garantiza-desref (Pasada limpia m c (suc n) fs p) (get_elem? fs p) f _ e
      (elim (Bool-cases (cumple m f)) [
        | inl t ↦ rw t (
          record {
            dentro = h;
            puntero = refl;
            marco = f;
            esta = e;
            pasa = t;
            visto =
                subst (λ z. Visto limpia m c p z fs fs) (sym (distancia_cero c p))
                  (Visto-vacio limpia m c p fs l);
          },
          omega (arith, distancia_cero c p),
        )
        | inr t ↦ rw t (
            Garantiza-weaken
              (Pasada limpia m c n (set fs p (apagar limpia f)) (incrementar_puntero c p)) _ _
              (recorrer-Pasada limpia m c n (set fs p (apagar limpia f)) (incrementar_puntero c p)
                (length-set fs p (apagar limpia f) ∙ l) (incrementar_puntero-lt c p h)
                (omega arith))
              (Pasada-suc limpia m c p n f fs h l b e t))
      ])
