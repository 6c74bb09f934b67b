-- ===== src/Muse/Clock/Choice.antt =====
-- Which frame `clockModificado` chooses (Memoria/muse.c).
use linuse_tp_os.Base.{
  ℕ, suc, ◌+◌, ◌≤◌, ◌<◌, ◌≡◌, refl, sym, ap, ◌∙◌, subst, ◌⊎◌, inl, inr, Bool, true, false, ◌||◌,
  none, some, List, arith, ltb, ◌==◌, if◌then◌else◌, Bool-cases, Garantiza, Garantiza->>=,
  Garantiza-weaken, length, get_elem?, get_elem?-some, get_elem?-lt,
}
use linuse_tp_os.Muse.Model.{Frame}
use linuse_tp_os.Muse.Clock.{
  incrementar_puntero, cumple, apagar, Recorrido, recorrer, si_no_hay, clock_modificado,
}
use linuse_tp_os.Muse.Clock.Pass.{distancia, Pasada, recorrer-Pasada}

-- The order in which frames are taken: by use first, then by modification.
abbrev pub clase : Frame → ℕ
clase f = if f.uso == 0 then f.modificado else 2 + f.modificado

-- The frame chosen is of the lowest class, and of those the first from the pointer on.
pub record Elegido (c p : ℕ) (fs gs : List Frame) (i q : ℕ) : Type 0 where
  pub dentro : i < c
  pub puntero : q ≡ incrementar_puntero c i
  pub largo : length gs ≡ c
  pub marco : Frame
  pub esta : get_elem? fs i ≡ some marco
  pub minimo :
      (j : ℕ) {g : Frame}
      → get_elem? fs j ≡ some g
      → (clase marco < clase g) ⊎ ((clase marco ≡ clase g) × (distancia c p i ≤ distancia c p j))

abbrev pub Elige : ℕ → List Frame → ℕ → Recorrido → Type 0
Elige c fs p (some i, gs, q) = Elegido c p fs gs i q
Elige c fs p (none, gs, q) = ⊥

module _ (c p : ℕ) (fs : List Frame) (l : length fs ≡ c) (h : p < c)
    (bits : (j : ℕ) (f : Frame) → get_elem? fs j ≡ some f → f.modificado ≤ 1) where
  -- Passes that chose no frame left those of the lower classes out.
  abbrev Tras : ℕ → Bool → List Frame → Type 0
  Tras k b gs =
      (j : ℕ) (f : Frame)
      → get_elem? fs j ≡ some f
      → (k ≤ clase f) × (get_elem? gs j ≡ some (apagar b f))

  abbrev Fase : ℕ → Bool → Recorrido → Type 0
  Fase k b (some i, gs, q) = Elegido c p fs gs i q
  Fase k b (none, gs, q) = Tras k b gs × (q ≡ p) × (length gs ≡ c)

  -- The test of a pass tells the frames of class `k` from those above.
  abbrev Corte : ℕ → Bool → ℕ → Type 0
  Corte k b m =
      (f : Frame)
      → f.modificado ≤ 1
      → k ≤ clase f
      → (cumple m (apagar b f) ≡ true → clase f ≡ k)
        × (cumple m (apagar b f) ≡ false → suc k ≤ clase f)

  apagar-apagar : (a b : Bool) (f : Frame) → apagar a (apagar b f) ≡ apagar (b || a) f
  unfolding apagar
  apagar-apagar true true f = refl
  apagar-apagar true false f = refl
  apagar-apagar false true f = refl
  apagar-apagar false false f = refl

  Pasada-Fase :
      (limpia b : Bool) (m k : ℕ) (gs : List Frame)
      → Corte k b m
      → Tras k b gs
      → (r : Recorrido) → Pasada limpia m c c gs p r
      → Fase (suc k) (b || limpia) r
  Pasada-Fase limpia b m k gs corte tras (none, hs, q) (v, w) = (
    (λ j f e.
        let d : distancia c p j < c = ground (arith, get_elem?-lt fs j e) in
        let t = tras j f e in
        let u = v.vistos j t.1 d in
        ((corte f (bits j f e) t.0).1 u.0, u.1 ∙ ap some (apagar-apagar limpia b f))),
    ground arith,
    v.largo,
  )
  Pasada-Fase limpia b m k gs corte tras (some i, hs, q) (v, w) =
      let (f, e) = get_elem?-some fs i (rw l v.dentro) in
      let t = tras i f e in
      let x : some (apagar b f) ≡ some v.marco = sym t.1 ∙ v.esta in
      let y : apagar b f ≡ v.marco = cc in
      let z : clase f ≡ k = (corte f (bits i f e) t.0).0 (ap (cumple m) y ∙ v.pasa) in
      record {
        dentro = v.dentro;
        puntero = v.puntero;
        largo = v.visto.largo;
        marco = f;
        esta = e;
        minimo = λ j {g = g} a.
            let s = tras j g a in
            elim (Bool-cases (ltb (distancia c p j) (distancia c p i))) [
              | inl n ↦
                  let d : distancia c p j < distancia c p i = ground arith in
                  let o = (corte g (bits j g a) s.0).1 (v.visto.vistos j s.1 d).0 in
                  inl (omega arith)
              | inr n ↦ ground (arith, s.0)
            ];
      }

  -- One pass more, where the ones before may have chosen a frame.
  Fase-suc :
      (limpia b : Bool) (m k : ℕ)
      → Corte k b m
      → (r : Recorrido) → Fase k b r
      → Garantiza (Fase (suc k) (b || limpia)) (si_no_hay (recorrer limpia m c c) r)
  unfolding si_no_hay
  Fase-suc limpia b m k corte (some i, gs, q) e = e
  Fase-suc limpia b m k corte (none, gs, q) (t, x, n) =
      subst (λ y. Garantiza (Fase (suc k) (b || limpia)) (recorrer limpia m c c gs y)) (sym x)
        (Garantiza-weaken (Pasada limpia m c c gs p) _ _
          (recorrer-Pasada limpia m c c gs p n h (omega arith))
          (Pasada-Fase limpia b m k gs corte t))

  Fase-fin : (r : Recorrido) → Fase 4 true r → Elige c fs p r
  Fase-fin (some i, gs, q) e = e
  Fase-fin (none, gs, q) (t, x, n) =
      let (f, e) = get_elem?-some fs p (rw l h) in ground (arith, (t p f e).0, bits p f e)

  Corte-primera : Corte 0 false 0
  unfolding cumple apagar
  Corte-primera f b k = ground arith

  Corte-segunda : Corte 1 false 1
  unfolding cumple apagar
  Corte-segunda f b k = ground arith

  Corte-tercera : Corte 2 true 0
  unfolding cumple apagar
  Corte-tercera f b k = ground arith

  Corte-cuarta : Corte 3 true 1
  unfolding cumple apagar
  Corte-cuarta f b k = ground arith

  -- With frames, a pointer that is the index of one, and modification bits that are 0 or 1,
  -- `clockModificado` ends and chooses one frame: one of the lowest class (neither used nor modified,
  -- modified only, used only, both) and, among these, the first that the pointer meets. The pointer is
  -- left on the next frame.
  pub clock_modificado-Elige : Garantiza (Elige c fs p) (clock_modificado c fs p)
  unfolding clock_modificado
  clock_modificado-Elige =
      Garantiza->>= (Fase 1 false) (Elige c fs p) (recorrer false 0 c c fs p) _
        (Fase-suc false false 0 0 Corte-primera (none, fs, p) (λ j f e. (omega arith, e), refl, l))
        λ r1 _ f1.
          Garantiza->>= (Fase 2 true) (Elige c fs p) (si_no_hay (recorrer true 1 c c) r1) _
            (Fase-suc true false 1 1 Corte-segunda r1 f1)
            λ r2 _ f2.
              Garantiza->>= (Fase 3 true) (Elige c fs p) (si_no_hay (recorrer false 0 c c) r2) _
                (Fase-suc false true 0 2 Corte-tercera r2 f2)
                λ r3 _ f3.
                  Garantiza-weaken (Fase 4 true) _ _ (Fase-suc false true 1 3 Corte-cuarta r3 f3)
                    Fase-fin
