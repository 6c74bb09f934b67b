-- ===== src/Suse/Count/Waiting.antt =====
-- The threads under the operations of semaphores (SUSE.c).
use linuse_tp_os.Base.{
  ℕ, ◌+◌, ◌≡◌, refl, ap, inl, inr, Bool, false, none, some, List, [], ◌∷◌, ◌++◌, arith, ◌==◌,
  Bool-cases, Option-cases, clave_nombre, clave_numero, pos, leb_ℤ, inc, dec, Logra, Logra->>=,
  Logra-desref, cuantos-append, lookup,
}
use linuse_tp_os.Suse.Model.{Hilo, Semaforo, Programa, Suse}
use linuse_tp_os.Suse.Semaphore.{
  con_semaforo, con_cola, desbloquear_programa, sacar_1_hilo, signal_con_cola, sem_suse_signal,
  wait_bloquear, sem_suse_wait,
}
use linuse_tp_os.Suse.Invariant.{IsCoherente}
use linuse_tp_os.Suse.Ready.{pasar_a_ready}
use linuse_tp_os.Suse.Count.{en_opcion, hilos, hilos-programa, hilos-cola}
use linuse_tp_os.Suse.Count.Moves.{pasar_a_ready-hilos}

module _ {E : Type 0} (q : ℕ → ℕ → Bool) where
  desbloquear_programa-hilos :
      (pid : ℕ) (s : Suse E) → Logra (λ t. hilos q t ≡ hilos q s) (desbloquear_programa pid s)
  unfolding desbloquear_programa
  desbloquear_programa-hilos pid s =
      Logra-desref (λ t. hilos q t ≡ hilos q s) (lookup pid s.programas) _
        λ p e.
          let k =
            hilos-programa q pid p (record p { mutex_tomado = false; esta_bloqueado = false }) s
              e in
          elim (Bool-cases p.esta_bloqueado) [ inl b ↦ rw b (omega (arith, k)) | inr b ↦ rw b refl ]

  sacar_1_hilo-hilos :
      (pid : ℕ) (id : List ℕ) (l : List (Hilo E)) (s : Suse E)
      → IsCoherente s
      → lookup id s.blocked_por_semaforo ≡ some l
      → Logra (λ t. hilos q t ≡ hilos q s) (sacar_1_hilo pid id l s)
  unfolding sacar_1_hilo
  sacar_1_hilo-hilos pid id [] s c f = refl
  sacar_1_hilo-hilos pid id (h ∷ r) s c f =
      let s0 = con_cola id r s in
      Logra->>= (λ t. hilos q t ≡ hilos q s0 + en_opcion q (some h)) (λ t. hilos q t ≡ hilos q s)
        (pasar_a_ready h s0) _ (pasar_a_ready-hilos q h s0 c)
        λ s1 _ k1.
          Logra->>= (λ t. hilos q t ≡ hilos q s1) (λ t. hilos q t ≡ hilos q s)
            (desbloquear_programa h.pid s1) _ (desbloquear_programa-hilos h.pid s1)
            λ s2 _ k2.
              Logra-desref (λ t. hilos q t ≡ hilos q s) (lookup pid s2.programas) _
                λ p e. ground (
                  arith,
                  hilos-programa q pid p
                      (record p {
                        cantidad_de_hilos_en_blocked = dec p.cantidad_de_hilos_en_blocked;
                      })
                      s2 e,
                  hilos-cola q id (h ∷ r) r s f,
                )

  con_semaforo-hilos :
      (id : List ℕ) (x : Semaforo) (s : Suse E) → hilos q (con_semaforo id x s) ≡ hilos q s
  unfolding hilos
  con_semaforo-hilos id x s = refl

  signal_con_cola-hilos :
      (pid : ℕ) (id : List ℕ) (x : Semaforo) (l : List (Hilo E)) (s : Suse E)
      → IsCoherente s
      → lookup id s.blocked_por_semaforo ≡ some l
      → Logra (λ t. hilos q t ≡ hilos q s) (signal_con_cola pid id x l s)
  unfolding signal_con_cola
  signal_con_cola-hilos pid id x [] s c f = con_semaforo-hilos id _ s
  signal_con_cola-hilos pid id x (h ∷ r) s c f = sacar_1_hilo-hilos pid id (h ∷ r) s c f

  pub sem_suse_signal-hilos :
      (pid : ℕ) (id : List ℕ) (s : Suse E)
      → IsCoherente s
      → Logra (λ t. hilos q t ≡ hilos q s) (sem_suse_signal pid id s)
  unfolding sem_suse_signal
  sem_suse_signal-hilos pid id s c = elim (Option-cases (lookup id s.semaforos)) [
    | inl e ↦ rw (e, sem_suse_signal) refl
    | inr (x, e) ↦ elim (Bool-cases (leb_ℤ (inc x.valor_actual) x.valor_maximo)) [
      | inl b ↦
          rw (e, sem_suse_signal)
            (rw b (
              Logra-desref (λ t. hilos q t ≡ hilos q s) (lookup id s.blocked_por_semaforo) _
                λ l f. signal_con_cola-hilos pid id x l s c f))
      | inr b ↦ rw (e, sem_suse_signal) (rw b refl)
    ]
  ]

  wait_bloquear-hilos :
      (pid tid : ℕ) (id : List ℕ) (p : Programa E) (h : Hilo E) (s : Suse E)
      → lookup pid s.programas ≡ some p
      → p.exec ≡ some h
      → Logra (λ t. hilos q t ≡ hilos q s) (wait_bloquear pid tid id p h s)
  unfolding wait_bloquear
  wait_bloquear-hilos pid tid id p h s e x = elim (Bool-cases (h.tid == tid)) [
    | inl b ↦ rw b (
        Logra-desref (λ t. hilos q t ≡ hilos q s) (lookup id s.blocked_por_semaforo) _
          λ l f.
            let p' = record p {
              cantidad_de_hilos_en_blocked = inc p.cantidad_de_hilos_en_blocked;
              exec = none;
            } in
            ground (
              arith,
              ap (en_opcion q) x,
              hilos-programa q pid p p' (con_cola id (l ++ h ∷ []) s) e,
              hilos-cola q id l (l ++ h ∷ []) s f,
              cuantos-append (λ (y : Hilo E). q y.pid y.tid) l (h ∷ []),
            ))
    | inr b ↦ rw b tt
  ]

  -- Where `sem_suse_wait` ends, the server holds as many threads as before, of every set of programs
  -- and thread numbers.
  pub sem_suse_wait-hilos :
      (pid tid : ℕ) (id : List ℕ) (s : Suse E)
      → Logra (λ t. hilos q t ≡ hilos q s) (sem_suse_wait pid tid id s)
  unfolding sem_suse_wait
  sem_suse_wait-hilos pid tid id s = elim (Option-cases (lookup id s.semaforos)) [
    | inl e ↦ rw (e, sem_suse_wait) refl
    | inr (x, e) ↦ elim (Bool-cases (leb_ℤ (pos 1) x.valor_actual)) [
      | inl b ↦ rw (e, sem_suse_wait) (rw b (con_semaforo-hilos id _ s))
      | inr b ↦
          rw (e, sem_suse_wait)
            (rw b (
              Logra-desref (λ t. hilos q t ≡ hilos q s) (lookup pid s.programas) _
                λ p f.
                  Logra-desref (λ t. hilos q t ≡ hilos q s) p.exec _
                    λ h y. wait_bloquear-hilos pid tid id p h s f y))
    ]
  ]
