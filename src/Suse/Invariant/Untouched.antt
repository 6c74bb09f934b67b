-- ===== src/Suse/Invariant/Untouched.antt =====
-- The operations that touch neither the semaphores nor their queues (SUSE.c): all but `sem_suse_wait`
-- and `sem_suse_signal`.
use linuse_tp_os.Base.{
  ℕ, zero, suc, ◌≡◌, refl, ap, ◌∙◌, inl, inr, true, Option, none, some, List, [], ◌∷◌, ◌==◌,
  Bool-cases, Option-cases, clave_nombre, clave_numero, Resultado, ok, fallo, Logra, Logra->>=,
  Logra-desref, Logra-weaken, Dict, lookup, insert,
}
use linuse_tp_os.Suse.Model.{Reales, Hilo, Semaforo, Programa, Suse, programa_de, con_programa}
use linuse_tp_os.Suse.Ready.{
  crear_hilo, pasar_a_ready, tomar_con, tomar_nuevo, admitir_con, admitir,
}
use linuse_tp_os.Suse.Schedule.{
  Eleccion, Ordenar, recalcular_exec, recalcular_estimacion, replanificar_hilos, elegir,
  calcular_siguiente_hilo, siguiente_a_ejecutar, sacar_candidato, despertar,
}
use linuse_tp_os.Suse.Invariant.Choice.{estado_de}
use linuse_tp_os.Suse.Thread.{
  termino_el_hilo, bloqueado_por_algun_hilo, lista_de, join_exec, realizar_join, liberar_hilo,
  liberar_lista, liberar_bloqueados_por_el_hilo, pasar_a_exit, sacar_de_exec, realizar_close,
}
use linuse_tp_os.Suse.Metrics.{tomar_metricas}
use linuse_tp_os.Suse.Metrics.Frame.{Conserva, tomar_metricas-Conserva}

module _ {E : Type 0} where
  abbrev pub semaforos_y_colas : Suse E → Dict (List ℕ) Semaforo × Dict (List ℕ) (List (Hilo E))
  semaforos_y_colas s = (s.semaforos, s.blocked_por_semaforo)

  -- The step leaves them as they were.
  abbrev pub Intactos : Suse E → Suse E → Type 0
  Intactos s t = semaforos_y_colas t ≡ semaforos_y_colas s

  pub pasar_a_ready-Intactos : (h : Hilo E) (s : Suse E) → Logra (Intactos s) (pasar_a_ready h s)
  unfolding pasar_a_ready
  pasar_a_ready-Intactos h s = elim (Option-cases (lookup h.pid s.ready)) [
    | inl e ↦
        rw (e, pasar_a_ready) (Logra-desref (Intactos s) (lookup h.pid s.programas) _ λ p x. refl)
    | inr (l, e) ↦
        rw (e, pasar_a_ready) (Logra-desref (Intactos s) (lookup h.pid s.programas) _ λ p x. refl)
  ]

  pub crear_hilo-Intactos :
      (R : Reales E) (pid tid : ℕ) (s : Suse E) → Logra (Intactos s) (crear_hilo R pid tid s)
  unfolding crear_hilo
  crear_hilo-Intactos R pid tid s = Logra-desref (Intactos s) (lookup pid s.programas) _ λ p x. refl

  pub tomar_nuevo-Intactos : (s : Suse E) → Logra (Intactos s) (tomar_nuevo s)
  unfolding tomar_nuevo
  tomar_nuevo-Intactos s = con s.hay_nuevos s.new
    where
      con : (n : ℕ) (l : List (Hilo E)) → Logra (Intactos s) (tomar_con n l s)
      con zero l = tt
      con (suc n) [] = tt
      con (suc n) (h ∷ r) = refl

  pub admitir-Intactos : (s : Suse E) → Logra (Intactos s) (admitir s)
  unfolding admitir
  admitir-Intactos s = con s.maximo_procesamiento s.en_mano
    where
      con : (n : ℕ) (o : Option (Hilo E)) → Logra (Intactos s) (admitir_con n o s)
      con zero o = tt
      con (suc n) none = tt
      con (suc n) (some h) =
          Logra-desref (Intactos s) (lookup h.pid s.programas) _ λ p x. pasar_a_ready-Intactos h _

  recalcular_estimacion-Intactos :
      (R : Reales E) (pid : ℕ) (s : Suse E) → Intactos s (recalcular_estimacion R pid s)
  unfolding recalcular_estimacion
  recalcular_estimacion-Intactos R pid s = con (programa_de pid s)
    where
      con_exec : (p : Programa E) (o : Option (Hilo E)) → Intactos s (recalcular_exec R pid p o s)
      con_exec p none = refl
      con_exec p (some h) = refl

      con :
          (m : Resultado (Programa E))
          → Intactos s (elim m [ fallo _ ↦ s | ok p ↦ recalcular_exec R pid p p.exec s ])
      con (fallo x) = refl
      con (ok p) = con_exec p p.exec

  elegir-Intactos :
      (R : Reales E) (pid : ℕ) (o : Option (Hilo E)) (l : List (Hilo E)) (p : Programa E)
      (s : Suse E)
      → Intactos s (estado_de (elegir R pid o l p s))
  unfolding elegir
  elegir-Intactos R pid (some e) [] p s = refl
  elegir-Intactos R pid (some e) (h ∷ r) p s =
      elim (Bool-cases (R.menor h.estimacion e.estimacion)) [
        | inl b ↦ rw b refl
        | inr b ↦ rw b refl
      ]
  elegir-Intactos R pid none [] p s = refl
  elegir-Intactos R pid none (h ∷ r) p s = refl

  pub siguiente_a_ejecutar-Intactos :
      (R : Reales E) (ordenar : Ordenar E) (pid : ℕ) (s : Suse E)
      → Logra (λ r. Intactos s (estado_de r)) (siguiente_a_ejecutar R ordenar pid s)
  unfolding siguiente_a_ejecutar replanificar_hilos calcular_siguiente_hilo
  siguiente_a_ejecutar-Intactos R ordenar pid s =
      let s1 = recalcular_estimacion R pid s in
      let Q = λ (r : Eleccion E). Intactos s (estado_de r) in
      Logra->>= (Intactos s1) Q (replanificar_hilos R ordenar pid s1) _
        (Logra-desref (Intactos s1) (lookup pid s1.ready) _ λ l x. refl)
        λ s2 y e. Logra-desref Q (lookup pid s2.ready) _ λ l z.
          Logra-desref Q (lookup pid s2.programas) _
            λ p w. elegir-Intactos R pid p.exec l p s2 ∙ e ∙ recalcular_estimacion-Intactos R pid s

  pub despertar-Intactos : (pid : ℕ) (s : Suse E) → Logra (λ r. Intactos s r.0) (despertar pid s)
  unfolding despertar
  despertar-Intactos pid s =
      let Q = λ (r : Suse E × ℕ). Intactos s r.0 in
      Logra-desref Q (lookup pid s.programas) _ λ p x. Logra-desref Q (lookup pid s.ready) _ λ l y.
        elim (Bool-cases p.mutex_tomado) [
          | inl b ↦ rw b tt
          | inr b ↦ rw b (con l (record p { mutex_tomado = true }))
        ]
    where
      con :
          (l : List (Hilo E)) (p : Programa E)
          → Logra (λ (r : Suse E × ℕ). Intactos s r.0) (sacar_candidato pid l p s)
      con [] p = tt
      con (h ∷ r) p = refl

  pub realizar_join-Intactos : (pid tid : ℕ) (s : Suse E) → Intactos s (realizar_join pid tid s)
  unfolding realizar_join
  realizar_join-Intactos pid tid s = elim (Option-cases (lookup pid s.programas)) [
    | inl e ↦ rw (e, realizar_join) refl
    | inr (p, e) ↦ rw (e, realizar_join) (con p p.exec)
  ]
    where
      con : (p : Programa E) (o : Option (Hilo E)) → Intactos s (join_exec pid tid p o s)
      con p none = refl
      con p (some h) = elim (Bool-cases (termino_el_hilo tid s)) [
        | inl b ↦ rw (b, join_exec) refl
        | inr b ↦ rw (b, join_exec) refl
      ]

  pub tomar_metricas-Intactos : (s : Suse E) → Logra (Intactos s) (tomar_metricas s)
  tomar_metricas-Intactos s = con (tomar_metricas s) (tomar_metricas-Conserva s)
    where
      con : (m : Resultado (Suse E)) → Conserva s m → Logra (Intactos s) m
      con (ok t) e = ap semaforos_y_colas e
      con (fallo x) e = tt

  liberar_hilo-Intactos : (h : Hilo E) (s : Suse E) → Logra (Intactos s) (liberar_hilo h s)
  unfolding liberar_hilo
  liberar_hilo-Intactos h s = Logra-desref (Intactos s) (lookup h.pid s.programas) _ λ p x.
      elim (Bool-cases (bloqueado_por_algun_hilo h p)) [
        | inl b ↦ rw b refl
        | inr b ↦ rw b (Logra-desref (Intactos s) (lookup h.pid s.ready) _ λ l y. refl)
      ]

  liberar_lista-Intactos :
      (pid tid : ℕ) (l : List (Hilo E)) (s : Suse E)
      → Logra (Intactos s) (liberar_lista pid tid l s)
  unfolding liberar_lista
  liberar_lista-Intactos pid tid [] s = refl
  liberar_lista-Intactos pid tid (h ∷ r) s =
      Logra-desref (Intactos s) (lookup pid s.programas) _ λ p x.
        let s1 = con_programa pid (record p { blocked = insert tid r p.blocked }) s in
        Logra->>= (Intactos s1) (Intactos s) (liberar_hilo h s1) _ (liberar_hilo-Intactos h s1)
          λ t y e.
            Logra-weaken (Intactos t) (Intactos s) (liberar_lista pid tid r t)
              (liberar_lista-Intactos pid tid r t) λ u f. f ∙ e

  pub realizar_close-Intactos :
      (pid tid : ℕ) (s : Suse E) → Logra (Intactos s) (realizar_close pid tid s)
  unfolding realizar_close pasar_a_exit sacar_de_exec liberar_bloqueados_por_el_hilo
  realizar_close-Intactos pid tid s =
      let Q = Intactos s in
      Logra-desref Q (lookup pid s.programas) _ λ p x. Logra-desref Q p.exec _ λ h y.
        elim (Bool-cases (h.tid == tid)) [
          | inr b ↦ rw b refl
          | inl b ↦ rw b (
              Logra->>= Q Q (pasar_a_exit pid s) _ salir λ s1 z e.
                Logra->>= Q Q (sacar_de_exec pid s1) _
                  (Logra-desref Q (lookup pid s1.programas) _ λ q v. e)
                  λ s2 w f. Logra-desref Q (lookup h.pid s2.programas) _ λ q v.
                    Logra-weaken (Intactos s2) Q
                      (liberar_lista h.pid h.tid (lista_de h.tid q.blocked) s2)
                      (liberar_lista-Intactos h.pid h.tid (lista_de h.tid q.blocked) s2)
                      λ u g. g ∙ f)
        ]
    where
      salir : Logra (Intactos s) (pasar_a_exit pid s)
      salir =
          Logra->>= (Intactos s) (Intactos s) (tomar_metricas s) _ (tomar_metricas-Intactos s)
            λ t x e.
              Logra-desref (Intactos s) (lookup pid t.programas) _
                λ p y. Logra-desref (Intactos s) p.exec _ λ h z. e
