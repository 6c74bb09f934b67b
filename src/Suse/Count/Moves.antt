-- ===== src/Suse/Count/Moves.antt =====
-- The threads under the moves from New into Ready and Execute (SUSE.c).
use linuse_tp_os.Base.{
  ℕ, zero, suc, ◌+◌, ◌≡◌, refl, ap, inl, inr, Bool, Option, none, some, List, [], ◌∷◌, ◌++◌, arith,
  if◌then◌else◌, Option-cases, clave_nombre, clave_numero, inc, dec, Logra, Logra-desref,
  Logra-weaken, cuantos-append, lookup, suma,
}
use linuse_tp_os.Suse.Model.{Reales, Hilo, Suse, get_microtime, leido, con_programa, con_ready}
use linuse_tp_os.Suse.Ready.{
  hilo_nuevo, crear_hilo, pasar_a_ready, tomar_con, tomar_nuevo, admitir_con, admitir,
}
use linuse_tp_os.Suse.Invariant.{IsCoherente, coherente_en, Coherencia-insert, SonCoherentes-same}
use linuse_tp_os.Suse.Program.{programa_nuevo, crear_programa}
use linuse_tp_os.Suse.Count.{
  en_lista, en_opcion, hilos, hilos-programa, hilos-programa_nuevo, hilos-ready, hilos-ready_nueva,
}

module _ {E : Type 0} (q : ℕ → ℕ → Bool) where
  hilos-leido : (s : Suse E) → hilos q (leido s) ≡ hilos q s
  unfolding hilos
  hilos-leido s = refl

  pub crear_programa-hilos :
      (pid : ℕ) (s : Suse E)
      → lookup pid s.programas ≡ none
      → hilos q (crear_programa pid s) ≡ hilos q s
  unfolding crear_programa suma
  crear_programa-hilos pid s e = omega (arith, hilos-programa_nuevo q pid (programa_nuevo pid) s e)

  pub crear_hilo-hilos :
      (R : Reales E) (pid tid : ℕ) (s : Suse E)
      → Logra (λ t. hilos q t ≡ hilos q s + (if q pid tid then 1 else 0)) (crear_hilo R pid tid s)
  unfolding crear_hilo hilos
  crear_hilo-hilos R pid tid s =
      let h = hilo_nuevo R pid tid (get_microtime s) in
      Logra-desref _ (lookup pid s.programas) _ λ p e. ground (
        arith,
        hilos-programa q pid p
            (record p { cantidad_de_hilos_en_new = inc p.cantidad_de_hilos_en_new })
            (record (leido s) { new = s.new ++ h ∷ []; hay_nuevos = s.hay_nuevos + 1 }) e,
        cuantos-append (λ (x : Hilo E). q x.pid x.tid) s.new (h ∷ []),
      )

  pub pasar_a_ready-hilos :
      (h : Hilo E) (s : Suse E)
      → IsCoherente s
      → Logra (λ t. hilos q t ≡ hilos q s + en_opcion q (some h)) (pasar_a_ready h s)
  unfolding pasar_a_ready
  pasar_a_ready-hilos h s c = elim (Option-cases (lookup h.pid s.programas)) [
    | inl e ↦ elim (Option-cases (lookup h.pid s.ready)) [
      | inl f ↦ rw (f, e, pasar_a_ready) tt
      | inr (l, f) ↦ rw (f, e, pasar_a_ready) tt
    ]
    | inr (p, e) ↦ elim (Option-cases (lookup h.pid s.ready)) [
      | inl f ↦
          let x : p.exec ≡ none = (rw f at (coherente_en s.programas s.ready c h.pid p e)).1 in
          rw (f, e, pasar_a_ready)
            (omega (
              arith,
              hilos-programa q h.pid p (record p { exec = some h }) (con_ready h.pid [] s) e,
              hilos-ready_nueva q h.pid s f,
              ap (en_opcion q) x,
            ))
      | inr (l, f) ↦
          let h' = record h { timestamp_ready = get_microtime s } in
          let l' = l ++ h' ∷ [] in
          let p' = record p { cantidad_de_hilos_en_ready = inc p.cantidad_de_hilos_en_ready } in
          rw (f, e, pasar_a_ready)
            (ground (
              arith,
              hilos-programa q h.pid p p' (con_ready h.pid l' (leido s)) e,
              hilos-ready q h.pid l l' (leido s) f,
              hilos-leido s,
              cuantos-append (λ (x : Hilo E). q x.pid x.tid) l (h' ∷ []),
            ))
    ]
  ]

  tomar_con-hilos :
      (n : ℕ) (l : List (Hilo E)) (s : Suse E)
      → s.en_mano ≡ none
      → s.new ≡ l
      → Logra (λ t. hilos q t ≡ hilos q s) (tomar_con n l s)
  unfolding tomar_con hilos
  tomar_con-hilos zero l s e f = tt
  tomar_con-hilos (suc n) [] s e f = tt
  tomar_con-hilos (suc n) (h ∷ r) s e f = ground (arith, ap (en_opcion q) e, ap (en_lista q) f)

  pub tomar_nuevo-hilos :
      (s : Suse E) → s.en_mano ≡ none → Logra (λ t. hilos q t ≡ hilos q s) (tomar_nuevo s)
  unfolding tomar_nuevo
  tomar_nuevo-hilos s e = tomar_con-hilos s.hay_nuevos s.new s e refl

  en_mano-hilos :
      (s : Suse E) (n : ℕ) (h : Hilo E)
      → s.en_mano ≡ some h
      → hilos q (record s { maximo_procesamiento = n; en_mano = none }) + en_opcion q (some h)
        ≡ hilos q s
  unfolding hilos
  en_mano-hilos s n h m = omega (arith, ap (en_opcion q) m)

  admitir_con-hilos :
      (n : ℕ) (o : Option (Hilo E)) (s : Suse E)
      → IsCoherente s
      → s.en_mano ≡ o
      → Logra (λ t. hilos q t ≡ hilos q s) (admitir_con n o s)
  unfolding admitir_con
  admitir_con-hilos zero o s c m = tt
  admitir_con-hilos (suc n) none s c m = tt
  admitir_con-hilos (suc n) (some h) s c m =
      Logra-desref (λ t. hilos q t ≡ hilos q s) (lookup h.pid s.programas) _
        λ p e.
          let p' = record p { cantidad_de_hilos_en_new = dec p.cantidad_de_hilos_en_new } in
          let s0 = record s { maximo_procesamiento = n; en_mano = none } in
          let c0 : IsCoherente (con_programa h.pid p' s0) =
            Coherencia-insert s.programas s.ready c h.pid p' (
              SonCoherentes-same p p' _ (coherente_en s.programas s.ready c h.pid p e) refl refl
                refl refl) in
          Logra-weaken (λ t. hilos q t ≡ hilos q (con_programa h.pid p' s0) + en_opcion q (some h))
            _ (pasar_a_ready h (con_programa h.pid p' s0))
            (pasar_a_ready-hilos h (con_programa h.pid p' s0) c0)
            λ t k. omega (arith, k, en_mano-hilos s n h m, hilos-programa q h.pid p p' s0 e)

  pub admitir-hilos : (s : Suse E) → IsCoherente s → Logra (λ t. hilos q t ≡ hilos q s) (admitir s)
  unfolding admitir
  admitir-hilos s c = admitir_con-hilos s.maximo_procesamiento s.en_mano s c refl
