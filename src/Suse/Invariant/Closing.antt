-- ===== src/Suse/Invariant/Closing.antt =====
-- The invariant under the metrics and `realizarClose` (SUSE.c).
use mathlib.Core.Option
use linuse_tp_os.Base.{
  ℕ, ◌≡◌, refl, sym, ap, ◌∙◌, inl, inr, Option, none, some, List, map, arith, ◌==◌, Bool-cases,
  clave_nombre, clave_numero, Resultado, ok, fallo, Logra, Logra->>=, Logra-desref, length,
  length-map, lookup, lookup-map_values,
}
use linuse_tp_os.Suse.Model.{Hilo, Programa, Suse}
use linuse_tp_os.Suse.Thread.{
  lista_de, liberar_bloqueados_por_el_hilo, pasar_a_exit, sacar_de_exec, realizar_close,
}
use linuse_tp_os.Suse.Metrics.Frame.{
  sin_tiempo, sin_tiempos, esqueleto, Conserva, tomar_metricas-Conserva,
}
use linuse_tp_os.Suse.Invariant.{
  SonCoherentes, IsCoherente, coherente_en, Coherencia-insert, SonCoherentes-idle,
}
use linuse_tp_os.Suse.Invariant.Waiting.{liberar_lista-IsCoherente}
use linuse_tp_os.Suse.Metrics.{tomar_metricas}

module _ {E : Type 0} where
  none_of_map : (o : Option (Hilo E)) → Option.map sin_tiempo o ≡ none → o ≡ none
  none_of_map none e = refl
  none_of_map (some h) e = cc

  campos_iguales :
      (p q : Programa E)
      → sin_tiempos q ≡ sin_tiempos p
      → (q.cantidad_de_hilos_en_ready ≡ p.cantidad_de_hilos_en_ready)
        × (q.esta_bloqueado ≡ p.esta_bloqueado)
        × (q.mutex_tomado ≡ p.mutex_tomado)
        × (p.exec ≡ none → q.exec ≡ none)
  campos_iguales p q e = (
    ap (λ (x : Programa E). x.cantidad_de_hilos_en_ready) e,
    ap (λ (x : Programa E). x.esta_bloqueado) e,
    ap (λ (x : Programa E). x.mutex_tomado) e,
    λ n. none_of_map q.exec (ap (λ (x : Programa E). x.exec) e ∙ ap (Option.map sin_tiempo) n),
  )

  -- Programs and lists of one skeleton are coherent together.
  SonCoherentes-esqueleto :
      (o o' : Option (Programa E)) (r r' : Option (List (Hilo E)))
      → Option.map sin_tiempos o' ≡ Option.map sin_tiempos o
      → Option.map (map sin_tiempo) r' ≡ Option.map (map sin_tiempo) r
      → SonCoherentes o r
      → SonCoherentes o' r'
  SonCoherentes-esqueleto none none r none e f k = refl
  SonCoherentes-esqueleto none none r (some l') e f k = cc
  SonCoherentes-esqueleto none (some p') r r' e f k = cc
  SonCoherentes-esqueleto (some p) none r r' e f k = cc
  SonCoherentes-esqueleto (some p) (some p') none none e f k =
      ground (arith, campos_iguales p p' (cc e))
  SonCoherentes-esqueleto (some p) (some p') none (some l') e f k = cc
  SonCoherentes-esqueleto (some p) (some p') (some l) none e f k = cc
  SonCoherentes-esqueleto (some p) (some p') (some l) (some l') e f k =
      let g : map sin_tiempo l' ≡ map sin_tiempo l = cc f in
      let n : length l' ≡ length l =
        sym (length-map l' sin_tiempo) ∙ ap length g ∙ length-map l sin_tiempo in
      ground (arith, campos_iguales p p' (cc e), n)

  esqueleto-IsCoherente : (s t : Suse E) → esqueleto t ≡ esqueleto s → IsCoherente s → IsCoherente t
  esqueleto-IsCoherente s t e c pid =
      SonCoherentes-esqueleto _ _ _ _
        (sym (lookup-map_values sin_tiempos pid t.programas)
          ∙ ap (λ (u : Suse E). lookup pid u.programas) e
          ∙ lookup-map_values sin_tiempos pid s.programas)
        (sym (lookup-map_values (map sin_tiempo) pid t.ready)
          ∙ ap (λ (u : Suse E). lookup pid u.ready) e
          ∙ lookup-map_values (map sin_tiempo) pid s.ready)
        (c pid)

  pub tomar_metricas-IsCoherente :
      (s : Suse E) → IsCoherente s → Logra IsCoherente (tomar_metricas s)
  tomar_metricas-IsCoherente s c = go (tomar_metricas s) (tomar_metricas-Conserva s)
    where
      go : (m : Resultado (Suse E)) → Conserva s m → Logra IsCoherente m
      go (ok t) e = esqueleto-IsCoherente s t e c
      go (fallo x) e = tt

  pasar_a_exit-IsCoherente :
      (pid : ℕ) (s : Suse E) → IsCoherente s → Logra IsCoherente (pasar_a_exit pid s)
  unfolding pasar_a_exit
  pasar_a_exit-IsCoherente pid s c =
      Logra->>= IsCoherente IsCoherente (tomar_metricas s) _ (tomar_metricas-IsCoherente s c)
        λ t _ d.
          Logra-desref IsCoherente (lookup pid t.programas) _
            λ p e. Logra-desref IsCoherente p.exec _ λ h x. d

  sacar_de_exec-IsCoherente :
      (pid : ℕ) (s : Suse E) → IsCoherente s → Logra IsCoherente (sacar_de_exec pid s)
  unfolding sacar_de_exec
  sacar_de_exec-IsCoherente pid s c = Logra-desref IsCoherente (lookup pid s.programas) _ λ p e.
      Coherencia-insert s.programas s.ready c pid _ (
        SonCoherentes-idle p (record p { exec = none }) _
          (coherente_en s.programas s.ready c pid p e) refl refl refl refl)

  liberar_bloqueados-IsCoherente :
      (pid tid : ℕ) (s : Suse E)
      → IsCoherente s
      → Logra IsCoherente (liberar_bloqueados_por_el_hilo pid tid s)
  unfolding liberar_bloqueados_por_el_hilo
  liberar_bloqueados-IsCoherente pid tid s c =
      Logra-desref IsCoherente (lookup pid s.programas) _
        λ p e. liberar_lista-IsCoherente pid tid (lista_de tid p.blocked) s c

  pub realizar_close-IsCoherente :
      (pid tid : ℕ) (s : Suse E) → IsCoherente s → Logra IsCoherente (realizar_close pid tid s)
  unfolding realizar_close
  realizar_close-IsCoherente pid tid s c =
      Logra-desref IsCoherente (lookup pid s.programas) _ λ p e.
        Logra-desref IsCoherente p.exec _ λ h x. elim (Bool-cases (h.tid == tid)) [
          | inl b ↦ rw b (
              Logra->>= IsCoherente IsCoherente (pasar_a_exit pid s) _
                (pasar_a_exit-IsCoherente pid s c)
                λ s1 _ c1.
                  Logra->>= IsCoherente IsCoherente (sacar_de_exec pid s1) _
                    (sacar_de_exec-IsCoherente pid s1 c1)
                    λ s2 _ c2. liberar_bloqueados-IsCoherente h.pid h.tid s2 c2)
          | inr b ↦ rw b c
        ]
