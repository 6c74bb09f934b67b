-- ===== src/Suse/Invariant/Admission.antt =====
-- The invariant under `crearHilo`, `planificarReady`, `pasarAReady`, `crearPrograma` and
-- `limpiarEstructuras` (SUSE.c).
use linuse_tp_os.Base.{
  ℕ, zero, suc, ◌≡◌, refl, subst, inl, inr, Option, none, some, List, [], ◌∷◌, arith, Option-cases,
  clave_nombre, clave_numero, inc, dec, Logra, lookup,
}
use linuse_tp_os.Suse.Model.{Reales, Hilo, Suse}
use linuse_tp_os.Suse.Ready.{
  crear_hilo, pasar_a_ready, tomar_con, tomar_nuevo, admitir_con, admitir,
}
use linuse_tp_os.Suse.Program.{programa_nuevo, crear_programa, desconectar}
use linuse_tp_os.Suse.Invariant.{
  SonCoherentes, IsCoherente, coherente_en, Coherencia-insert, Coherencia-insert_both,
  Coherencia-erase, SonCoherentes-same, inc-length,
}

module _ {E : Type 0} where
  pub crear_programa-IsCoherente :
      (pid : ℕ) (s : Suse E)
      → IsCoherente s
      → lookup pid s.programas ≡ none
      → IsCoherente (crear_programa pid s)
  unfolding crear_programa
  crear_programa-IsCoherente pid s c e =
      Coherencia-insert s.programas s.ready c pid (programa_nuevo pid)
        (rw (subst (λ o. SonCoherentes o (lookup pid s.ready)) e (c pid)) (refl, refl, refl))

  pub desconectar-IsCoherente :
      (pid : ℕ) (s : Suse E) → IsCoherente s → IsCoherente (desconectar pid s)
  unfolding desconectar
  desconectar-IsCoherente pid s c = Coherencia-erase s.programas s.ready c pid

  pub crear_hilo-IsCoherente :
      (R : Reales E) (pid tid : ℕ) (s : Suse E)
      → IsCoherente s
      → Logra IsCoherente (crear_hilo R pid tid s)
  unfolding crear_hilo
  crear_hilo-IsCoherente R pid tid s c = elim (Option-cases (lookup pid s.programas)) [
    | inl e ↦ rw e tt
    | inr (p, e) ↦ rw e (
        Coherencia-insert s.programas s.ready c pid _ (
          SonCoherentes-same p
            (record p { cantidad_de_hilos_en_new = inc p.cantidad_de_hilos_en_new }) _
            (coherente_en s.programas s.ready c pid p e) refl refl refl refl))
  ]

  pub pasar_a_ready-IsCoherente :
      (h : Hilo E) (s : Suse E) → IsCoherente s → Logra IsCoherente (pasar_a_ready h s)
  unfolding pasar_a_ready
  pasar_a_ready-IsCoherente h s c = elim (Option-cases (lookup h.pid s.programas)) [
    | inl e ↦ elim (Option-cases (lookup h.pid s.ready)) [
      | inl f ↦ rw (f, e, pasar_a_ready) tt
      | inr (l, f) ↦ rw (f, e, pasar_a_ready) tt
    ]
    | inr (p, e) ↦
        let k = coherente_en s.programas s.ready c h.pid p e in
        elim (Option-cases (lookup h.pid s.ready)) [
          | inl f ↦
              let k' : SonCoherentes (some p) none = rw f at k in
              rw (f, e, pasar_a_ready)
                (Coherencia-insert_both s.programas s.ready c h.pid _ [] ground arith)
          | inr (l, f) ↦
              let k' : SonCoherentes (some p) (some l) = rw f at k in
              rw (f, e, pasar_a_ready)
                (Coherencia-insert_both s.programas s.ready c h.pid _ _
                  (inc-length l _ k'.0, k'.1, k'.2))
        ]
  ]

  tomar_con-IsCoherente :
      (n : ℕ) (l : List (Hilo E)) (s : Suse E) → IsCoherente s → Logra IsCoherente (tomar_con n l s)
  unfolding tomar_con
  tomar_con-IsCoherente zero l s c = tt
  tomar_con-IsCoherente (suc n) [] s c = tt
  tomar_con-IsCoherente (suc n) (h ∷ r) s c = c

  pub tomar_nuevo-IsCoherente : (s : Suse E) → IsCoherente s → Logra IsCoherente (tomar_nuevo s)
  unfolding tomar_nuevo
  tomar_nuevo-IsCoherente s c = tomar_con-IsCoherente s.hay_nuevos s.new s c

  admitir_con-IsCoherente :
      (n : ℕ) (o : Option (Hilo E)) (s : Suse E)
      → IsCoherente s
      → Logra IsCoherente (admitir_con n o s)
  unfolding admitir_con
  admitir_con-IsCoherente zero o s c = tt
  admitir_con-IsCoherente (suc n) none s c = tt
  admitir_con-IsCoherente (suc n) (some h) s c = elim (Option-cases (lookup h.pid s.programas)) [
    | inl e ↦ rw e tt
    | inr (p, e) ↦ rw e (
        pasar_a_ready-IsCoherente h _ (
          Coherencia-insert s.programas s.ready c h.pid _ (
            SonCoherentes-same p
              (record p { cantidad_de_hilos_en_new = dec p.cantidad_de_hilos_en_new }) _
              (coherente_en s.programas s.ready c h.pid p e) refl refl refl refl)))
  ]

  pub admitir-IsCoherente : (s : Suse E) → IsCoherente s → Logra IsCoherente (admitir s)
  unfolding admitir
  admitir-IsCoherente s c = admitir_con-IsCoherente s.maximo_procesamiento s.en_mano s c
