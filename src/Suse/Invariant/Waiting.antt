-- ===== src/Suse/Invariant/Waiting.antt =====
-- The invariant under the semaphores, join and close (SUSE.c).
use linuse_tp_os.Base.{
  ℕ, ◌≡◌, refl, inl, inr, false, Option, none, some, List, [], ◌∷◌, ◌==◌, Bool-cases, Option-cases,
  clave_nombre, clave_numero, pos, leb_ℤ, inc, dec, Logra, Logra->>=, Logra-desref, lookup, insert,
}
use linuse_tp_os.Suse.Model.{Hilo, Semaforo, Programa, Suse, con_programa}
use linuse_tp_os.Suse.Semaphore.{
  con_cola, desbloquear_programa, sacar_1_hilo, signal_con_cola, sem_suse_signal, wait_bloquear,
  sem_suse_wait,
}
use linuse_tp_os.Suse.Invariant.{
  IsCoherente, coherente_en, Coherencia-insert, coherente_con, Coherencia-insert_both,
  SonCoherentes-same, SonCoherentes-idle, inc-length, SonCoherentes-woken,
}
use linuse_tp_os.Suse.Invariant.Admission.{pasar_a_ready-IsCoherente}
use linuse_tp_os.Suse.Ready.{pasar_a_ready}
use linuse_tp_os.Suse.Thread.{
  termino_el_hilo, bloqueado_por_algun_hilo, poner_en_blocked_por_hilo, join_exec, realizar_join,
  liberar_hilo, liberar_lista,
}

module _ {E : Type 0} where
  desbloquear_programa-IsCoherente :
      (pid : ℕ) (s : Suse E) → IsCoherente s → Logra IsCoherente (desbloquear_programa pid s)
  unfolding desbloquear_programa
  desbloquear_programa-IsCoherente pid s c =
      Logra-desref IsCoherente (lookup pid s.programas) _ λ p e.
        elim (Bool-cases p.esta_bloqueado) [
          | inl b ↦ rw b (
              Coherencia-insert s.programas s.ready c pid
                (record p { mutex_tomado = false; esta_bloqueado = false })
                (SonCoherentes-woken p (record p { mutex_tomado = false; esta_bloqueado = false }) _
                  (coherente_en s.programas s.ready c pid p e) b refl refl refl))
          | inr b ↦ rw b c
        ]

  pub sacar_1_hilo-IsCoherente :
      (pid : ℕ) (id : List ℕ) (q : List (Hilo E)) (s : Suse E)
      → IsCoherente s
      → Logra IsCoherente (sacar_1_hilo pid id q s)
  unfolding sacar_1_hilo
  sacar_1_hilo-IsCoherente pid id [] s c = c
  sacar_1_hilo-IsCoherente pid id (h ∷ r) s c =
      Logra->>= IsCoherente IsCoherente (pasar_a_ready h (con_cola id r s)) _
        (pasar_a_ready-IsCoherente h (con_cola id r s) c)
        λ s1 _ c1.
          Logra->>= IsCoherente IsCoherente (desbloquear_programa h.pid s1) _
            (desbloquear_programa-IsCoherente h.pid s1 c1)
            λ s2 _ c2. Logra-desref IsCoherente (lookup pid s2.programas) _ λ p e.
              Coherencia-insert s2.programas s2.ready c2 pid _ (
                SonCoherentes-same p
                  (record p { cantidad_de_hilos_en_blocked = dec p.cantidad_de_hilos_en_blocked }) _
                  (coherente_en s2.programas s2.ready c2 pid p e) refl refl refl refl)

  signal_con_cola-IsCoherente :
      (pid : ℕ) (id : List ℕ) (x : Semaforo) (q : List (Hilo E)) (s : Suse E)
      → IsCoherente s
      → Logra IsCoherente (signal_con_cola pid id x q s)
  unfolding signal_con_cola
  signal_con_cola-IsCoherente pid id x [] s c = c
  signal_con_cola-IsCoherente pid id x (h ∷ r) s c = sacar_1_hilo-IsCoherente pid id (h ∷ r) s c

  pub sem_suse_signal-IsCoherente :
      (pid : ℕ) (id : List ℕ) (s : Suse E)
      → IsCoherente s
      → Logra IsCoherente (sem_suse_signal pid id s)
  unfolding sem_suse_signal
  sem_suse_signal-IsCoherente pid id s c = elim (Option-cases (lookup id s.semaforos)) [
    | inl e ↦ rw (e, sem_suse_signal) c
    | inr (x, e) ↦ elim (Bool-cases (leb_ℤ (inc x.valor_actual) x.valor_maximo)) [
      | inl b ↦
          rw (e, sem_suse_signal)
            (rw b (
              Logra-desref IsCoherente (lookup id s.blocked_por_semaforo) _
                λ q _. signal_con_cola-IsCoherente pid id x q s c))
      | inr b ↦ rw (e, sem_suse_signal) (rw b c)
    ]
  ]

  wait_bloquear-IsCoherente :
      (pid tid : ℕ) (id : List ℕ) (p : Programa E) (h : Hilo E) (s : Suse E)
      → IsCoherente s
      → lookup pid s.programas ≡ some p
      → Logra IsCoherente (wait_bloquear pid tid id p h s)
  unfolding wait_bloquear
  wait_bloquear-IsCoherente pid tid id p h s c e = elim (Bool-cases (h.tid == tid)) [
    | inl b ↦ rw b (
        Logra-desref IsCoherente (lookup id s.blocked_por_semaforo) _ λ q _.
          Coherencia-insert s.programas s.ready c pid _ (
            SonCoherentes-idle p
              (record p {
                cantidad_de_hilos_en_blocked = inc p.cantidad_de_hilos_en_blocked;
                exec = none;
              })
              _ (coherente_en s.programas s.ready c pid p e) refl refl refl refl))
    | inr b ↦ rw b tt
  ]

  pub sem_suse_wait-IsCoherente :
      (pid tid : ℕ) (id : List ℕ) (s : Suse E)
      → IsCoherente s
      → Logra IsCoherente (sem_suse_wait pid tid id s)
  unfolding sem_suse_wait
  sem_suse_wait-IsCoherente pid tid id s c = elim (Option-cases (lookup id s.semaforos)) [
    | inl e ↦ rw (e, sem_suse_wait) c
    | inr (x, e) ↦ elim (Bool-cases (leb_ℤ (pos 1) x.valor_actual)) [
      | inl b ↦ rw (e, sem_suse_wait) (rw b c)
      | inr b ↦
          rw (e, sem_suse_wait)
            (rw b (
              Logra-desref IsCoherente (lookup pid s.programas) _ λ p f.
                Logra-desref IsCoherente p.exec _
                  λ h _. wait_bloquear-IsCoherente pid tid id p h s c f))
    ]
  ]

  join_exec-IsCoherente :
      (pid tid : ℕ) (p : Programa E) (o : Option (Hilo E)) (s : Suse E)
      → IsCoherente s
      → lookup pid s.programas ≡ some p
      → IsCoherente (join_exec pid tid p o s)
  unfolding join_exec poner_en_blocked_por_hilo
  join_exec-IsCoherente pid tid p none s c e = c
  join_exec-IsCoherente pid tid p (some h) s c e = elim (Bool-cases (termino_el_hilo tid s)) [
    | inl b ↦ rw b c
    | inr b ↦ rw b (
        Coherencia-insert s.programas s.ready c pid _ (
          SonCoherentes-idle p (poner_en_blocked_por_hilo h tid p) _
            (coherente_en s.programas s.ready c pid p e) refl refl refl refl))
  ]

  pub realizar_join-IsCoherente :
      (pid tid : ℕ) (s : Suse E) → IsCoherente s → IsCoherente (realizar_join pid tid s)
  unfolding realizar_join
  realizar_join-IsCoherente pid tid s c = elim (Option-cases (lookup pid s.programas)) [
    | inl e ↦ rw (e, realizar_join) c
    | inr (p, e) ↦ rw (e, realizar_join) (join_exec-IsCoherente pid tid p p.exec s c e)
  ]

  liberar_hilo-IsCoherente :
      (h : Hilo E) (s : Suse E) → IsCoherente s → Logra IsCoherente (liberar_hilo h s)
  unfolding liberar_hilo
  liberar_hilo-IsCoherente h s c = Logra-desref IsCoherente (lookup h.pid s.programas) _ λ p e.
      elim (Bool-cases (bloqueado_por_algun_hilo h p)) [
        | inl b ↦ rw b c
        | inr b ↦ rw b (
            Logra-desref IsCoherente (lookup h.pid s.ready) _ λ l f.
              let k = coherente_con s.programas s.ready c h.pid p l e f in
              Coherencia-insert_both s.programas s.ready c h.pid _ _ (inc-length l _ k.0, k.1, k.2))
      ]

  pub liberar_lista-IsCoherente :
      (pid tid : ℕ) (l : List (Hilo E)) (s : Suse E)
      → IsCoherente s
      → Logra IsCoherente (liberar_lista pid tid l s)
  unfolding liberar_lista
  liberar_lista-IsCoherente pid tid [] s c = c
  liberar_lista-IsCoherente pid tid (h ∷ r) s c =
      Logra-desref IsCoherente (lookup pid s.programas) _ λ p e.
        let s0 = con_programa pid (record p { blocked = insert tid r p.blocked }) s in
        let c0 : IsCoherente s0 = Coherencia-insert s.programas s.ready c pid _ (
          SonCoherentes-same p (record p { blocked = insert tid r p.blocked }) _
            (coherente_en s.programas s.ready c pid p e) refl refl refl refl) in
        Logra->>= IsCoherente IsCoherente (liberar_hilo h s0) _ (liberar_hilo-IsCoherente h s0 c0)
          λ t _ d. liberar_lista-IsCoherente pid tid r t d
