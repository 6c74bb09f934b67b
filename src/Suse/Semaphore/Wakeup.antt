-- ===== src/Suse/Semaphore/Wakeup.antt =====
-- Enough signals wake a waiting thread (SUSE.c).
use linuse_tp_os.Base.{
  ℕ, suc, ◌≡◌, ap, ◌∙◌, subst, inl, inr, true, some, List, [], ◌∷◌, ◌++◌, arith, Bool-cases,
  Option-cases, clave_nombre, clave_numero, pos, ◌≤ℤ◌, leb_ℤ, inc, Resultado, ok, ◌>>=◌, Logra,
  Logra->>=, Logra-ok, Logra-desref, Garantiza, Garantiza->>=, length, All, All-weaken, lookup,
  lookup-insert_self,
}
use linuse_tp_os.Suse.Model.{Hilo, Semaforo, Programa, Suse, get_microtime}
use linuse_tp_os.Suse.Ready.{pasar_a_ready}
use linuse_tp_os.Suse.Semaphore.{
  con_cola, desbloquear_programa, sacar_1_hilo, signal_con_cola, sem_suse_signal,
}
use linuse_tp_os.Suse.Semaphore.Handoff.{
  Despierto, Entrega, lookup-insert-some, sem_suse_signal-Entrega,
}
use linuse_tp_os.Suse.Semaphore.Waiters.{Medido, Medidos, sem_suse_signal-Medidos}

-- The program is there, with its Ready list.
abbrev pub Registrado : {E : Type 0} → ℕ → Suse E → Type 0
Registrado {E} k s =
    ((p : Programa E) × (lookup k s.programas ≡ some p))
    × ((l : List (Hilo E)) × (lookup k s.ready ≡ some l))

-- The thread is the last in Ready of its program, which is not blocked.
abbrev pub Despierta : {E : Type 0} → Hilo E → Suse E → Type 0
Despierta {E} h t =
    (l : List (Hilo E)) × (ahora : ℕ) × (lookup h.pid t.ready
      ≡ some (l ++ record h { timestamp_ready = ahora } ∷ []))
    × Despierto h.pid t

module _ {E : Type 0} where
  -- Signals on a semaphore, one by each of the programs.
  unfoldable pub avisos : List ℕ → List ℕ → Suse E → Resultado (Suse E)
  avisos [] id s = ok s
  avisos (pid ∷ pids) id s = do t ← sem_suse_signal pid id s; avisos pids id t

  abbrev Registra : Suse E → Suse E → Type 0
  Registra s t = (k : ℕ) → Registrado k s → Registrado k t

  pasar_a_ready-Registra : (h : Hilo E) (s : Suse E) → Logra (Registra s) (pasar_a_ready h s)
  unfolding pasar_a_ready
  pasar_a_ready-Registra h s = elim (Option-cases (lookup h.pid s.ready)) [
    | inl e ↦
        rw (e, pasar_a_ready)
          (Logra-desref (Registra s) (lookup h.pid s.programas) _ λ p y k r. (
            lookup-insert-some h.pid k _ s.programas r.0.1,
            lookup-insert-some h.pid k _ s.ready r.1.1,
          ))
    | inr (l, e) ↦
        rw (e, pasar_a_ready)
          (Logra-desref (Registra s) (lookup h.pid s.programas) _ λ p y k r. (
            lookup-insert-some h.pid k _ s.programas r.0.1,
            lookup-insert-some h.pid k _ s.ready r.1.1,
          ))
  ]

  desbloquear_programa-Registra :
      (pid : ℕ) (s : Suse E) → Logra (Registra s) (desbloquear_programa pid s)
  unfolding desbloquear_programa
  desbloquear_programa-Registra pid s = Logra-desref (Registra s) (lookup pid s.programas) _ λ p x.
      elim (Bool-cases p.esta_bloqueado) [
        | inl b ↦ rw b (λ k r. (lookup-insert-some pid k _ s.programas r.0.1, r.1))
        | inr b ↦ rw b (λ k r. r)
      ]

  signal_con_cola-Registra :
      (pid : ℕ) (id : List ℕ) (x : Semaforo) (q : List (Hilo E)) (s : Suse E)
      → Logra (Registra s) (signal_con_cola pid id x q s)
  unfolding signal_con_cola sacar_1_hilo
  signal_con_cola-Registra pid id x [] s = λ k r. r
  signal_con_cola-Registra pid id x (h ∷ q) s =
      let s0 = con_cola id q s in
      Logra->>= (Registra s) (Registra s) (pasar_a_ready h s0) _ (pasar_a_ready-Registra h s0)
        λ s1 y v.
          Logra->>= (Registra s1) (Registra s) (desbloquear_programa h.pid s1) _
            (desbloquear_programa-Registra h.pid s1)
            λ s2 z w. Logra-desref (Registra s) (lookup pid s2.programas) _ λ p e k r.
              (lookup-insert-some pid k _ s2.programas (w k (v k r)).0.1, (w k (v k r)).1)

  sem_suse_signal-Registra :
      (pid : ℕ) (id : List ℕ) (s : Suse E) → Logra (Registra s) (sem_suse_signal pid id s)
  unfolding sem_suse_signal
  sem_suse_signal-Registra pid id s = elim (Option-cases (lookup id s.semaforos)) [
    | inl e ↦ rw (e, sem_suse_signal) (λ k r. r)
    | inr (x, e) ↦
        rw (e, sem_suse_signal)
          (elim (Bool-cases (leb_ℤ (inc x.valor_actual) x.valor_maximo)) [
            | inl b ↦ rw b (
                Logra-desref (Registra s) (lookup id s.blocked_por_semaforo) _
                  λ q y. signal_con_cola-Registra pid id x q s)
            | inr b ↦ rw b (λ k r. r)
          ])
  ]

  -- The value of a semaphore that threads wait for can be incremented.
  por_debajo :
      (x : Semaforo) (h : Hilo E) (r : List (Hilo E))
      → pos 1 ≤ℤ x.valor_maximo
      → Medido x (h ∷ r)
      → leb_ℤ (inc x.valor_actual) x.valor_maximo ≡ true
  unfolding inc
  por_debajo x h r g (l, u, inl e) = cc
  por_debajo x h r g (l, u, inr e) = rw e (ground arith)

  un_aviso :
      (pid : ℕ) (id : List ℕ) (h : Hilo E) (r : List (Hilo E)) (x : Semaforo) (s : Suse E)
      → Medidos s
      → lookup id s.semaforos ≡ some x
      → pos 1 ≤ℤ x.valor_maximo
      → lookup id s.blocked_por_semaforo ≡ some (h ∷ r)
      → (v : Registrado h.pid s) → Registrado pid s
      → Garantiza (Entrega id h v.0.0 v.1.0 r s) (sem_suse_signal pid id s)
  un_aviso pid id h r x s c e g f v w =
      let (q, y, m) = c id x e in
      let z : some q ≡ some (h ∷ r) = cc in
      let z' : q ≡ h ∷ r = cc in
      sem_suse_signal-Entrega pid id h r v.1.0 v.0.0 w.0.0 x s e
        (por_debajo x h r g (subst (Medido x) z' m)) f v.1.1 v.0.1 w.0.1

  pub avisos-Despierta :
      (pids : List ℕ) (id : List ℕ) (h : Hilo E) (antes resto : List (Hilo E)) (x : Semaforo)
      (s : Suse E)
      → Medidos s
      → lookup id s.semaforos ≡ some x
      → pos 1 ≤ℤ x.valor_maximo
      → lookup id s.blocked_por_semaforo ≡ some (antes ++ h ∷ resto)
      → length pids ≡ suc (length antes)
      → All (λ (k : Hilo E). Registrado k.pid s) antes
      → Registrado h.pid s
      → All (λ k. Registrado k s) pids
      → Garantiza (Despierta h) (avisos pids id s)
  unfolding avisos
  avisos-Despierta [] id h antes resto x s c e g f n a b d = absurd (omega arith)
  avisos-Despierta (pid ∷ []) id h [] resto x s c e g f n a b d =
      Garantiza->>= (Entrega id h b.0.0 b.1.0 resto s) (Despierta h) (sem_suse_signal pid id s) _
        (un_aviso pid id h resto x s c e g f b d.0)
        λ t y w. (b.1.0, get_microtime s, w.ready, (w.liberado.0, w.liberado.1, w.liberado.2.0))
  avisos-Despierta (pid ∷ q ∷ pids) id h [] resto x s c e g f n a b d = absurd (omega arith)
  avisos-Despierta (pid ∷ pids) id h (k ∷ antes) resto x s c e g f n a b d =
      Garantiza->>= (Entrega id k a.0.0.0 a.0.1.0 (antes ++ h ∷ resto) s) (Despierta h)
        (sem_suse_signal pid id s) _ (un_aviso pid id k (antes ++ h ∷ resto) x s c e g f a.0 d.0)
        λ t y w.
          let v = Logra-ok (Registra s) _ t (sem_suse_signal-Registra pid id s) y in
          avisos-Despierta pids id h antes resto x t
            (Logra-ok Medidos _ t (sem_suse_signal-Medidos pid id s c) y)
            (ap (lookup id) w.semaforos ∙ e) g
            (ap (lookup id) w.cola
              ∙ lookup-insert_self id (antes ++ h ∷ resto) s.blocked_por_semaforo)
            (omega arith)
            (All-weaken (λ (j : Hilo E). Registrado j.pid s) (λ j. Registrado j.pid t) antes
              (λ j. v j.pid) a.1)
            (v h.pid b) (All-weaken (λ j. Registrado j s) (λ j. Registrado j t) pids v d.1)
