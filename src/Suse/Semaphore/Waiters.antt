-- ===== src/Suse/Semaphore/Waiters.antt =====
-- No thread waits for a semaphore that has a value to give (SUSE.c).
use linuse_tp_os.Base.{
  ℕ, ◌≡◌, refl, sym, ◌∙◌, subst, ◌⊎◌, inl, inr, true, false, some, List, [], ◌∷◌, ◌++◌, arith, ◌==◌,
  Bool-cases, Option-cases, clave_nombre, clave_numero, ℤ, pos, negsuc, ◌≤ℤ◌, leb_ℤ, inc, dec,
  inc_parts, dec_parts, Logra, Logra->>=, Logra-desref, Dict, lookup, insert, lookup-insert,
  insert-lookup,
}
use linuse_tp_os.Suse.Model.{Hilo, Semaforo, Programa, Suse}
use linuse_tp_os.Suse.Invariant.Untouched.{semaforos_y_colas, Intactos, pasar_a_ready-Intactos}
use linuse_tp_os.Suse.Ready.{pasar_a_ready}
use linuse_tp_os.Suse.Semaphore.{
  con_semaforo, con_cola, desbloquear_programa, sacar_1_hilo, signal_con_cola, sem_suse_signal,
  wait_bloquear, sem_suse_wait,
}

module _ {E : Type 0} where
  -- A value between 0 and the maximum, which is 0 where threads wait.
  abbrev pub Medido : Semaforo → List (Hilo E) → Type 0
  Medido x q =
      (pos 0 ≤ℤ x.valor_actual)
      × (x.valor_actual ≤ℤ x.valor_maximo)
      × ((q ≡ []) ⊎ (x.valor_actual ≡ pos 0))

  -- Each semaphore has a queue, and they are in order.
  abbrev pub MedidosEn : Dict (List ℕ) Semaforo × Dict (List ℕ) (List (Hilo E)) → Type 0
  MedidosEn (d, colas) =
      (id : List ℕ) (x : Semaforo)
      → lookup id d ≡ some x
      → (q : List (Hilo E)) × (lookup id colas ≡ some q) × Medido x q

  abbrev pub Medidos : Suse E → Type 0
  Medidos s = MedidosEn (semaforos_y_colas s)

  pub Intactos-Medidos : (s t : Suse E) → Intactos s t → Medidos s → Medidos t
  Intactos-Medidos s t e c = subst MedidosEn (sym e) c

  -- A new value and queue for one semaphore.
  pub Medidos-insert :
      (d : Dict (List ℕ) Semaforo) (colas : Dict (List ℕ) (List (Hilo E))) (id : List ℕ)
      (x : Semaforo) (q : List (Hilo E))
      → MedidosEn (d, colas)
      → Medido x q
      → MedidosEn (insert id x d, insert id q colas)
  Medidos-insert d colas id x q c m j y e = elim (Bool-cases (clave_nombre.igual id j)) [
    | inl b ↦
        let f : some x ≡ some y = rw (lookup-insert id j x d, b) at e in
        let g : x ≡ y = cc in
        (q, rw (lookup-insert id j q colas, b) refl, subst (λ z. Medido z q) g m)
    | inr b ↦
        let (p, f, n) = c j y (rw (lookup-insert id j x d, b) at e) in
        (p, rw (lookup-insert id j q colas, b) f, n)
  ]

  -- The value of one semaphore, or its queue.
  con_semaforo-Medidos :
      (id : List ℕ) (x : Semaforo) (q : List (Hilo E)) (s : Suse E)
      → Medidos s
      → lookup id s.blocked_por_semaforo ≡ some q
      → Medido x q
      → Medidos (con_semaforo id x s)
  con_semaforo-Medidos id x q s c e m =
      subst (λ colas. MedidosEn (insert id x s.semaforos, colas))
        (insert-lookup id q s.blocked_por_semaforo e)
        (Medidos-insert s.semaforos s.blocked_por_semaforo id x q c m)

  con_cola-Medidos :
      (id : List ℕ) (x : Semaforo) (q : List (Hilo E)) (s : Suse E)
      → Medidos s
      → lookup id s.semaforos ≡ some x
      → Medido x q
      → Medidos (con_cola id q s)
  con_cola-Medidos id x q s c e m =
      subst (λ d. MedidosEn (d, insert id q s.blocked_por_semaforo))
        (insert-lookup id x s.semaforos e)
        (Medidos-insert s.semaforos s.blocked_por_semaforo id x q c m)

  quita_uno :
      (x : Semaforo) (q : List (Hilo E))
      → leb_ℤ (pos 1) x.valor_actual ≡ true
      → Medido x q
      → Medido (record x { valor_actual = dec x.valor_actual }) q
  quita_uno x q b (l, u, inl e) =
      (ground (arith, dec_parts x.valor_actual), ground (arith, dec_parts x.valor_actual), inl e)
  quita_uno x q b (l, u, inr e) = absurd (let y : leb_ℤ (pos 1) (pos 0) ≡ true = rw e at b in cc)

  vale_cero :
      (x : Semaforo) (q r : List (Hilo E))
      → leb_ℤ (pos 1) x.valor_actual ≡ false
      → Medido x q
      → Medido x r
  vale_cero x q r b (l, u, e) = (l, u, inr (cero x.valor_actual b l))
    where
      cero : (z : ℤ) → leb_ℤ (pos 1) z ≡ false → pos 0 ≤ℤ z → z ≡ pos 0
      cero (pos n) b l = let y : n ≡ 0 = ground arith in rw y
      cero (negsuc n) b l = absurd (omega arith)

  wait_bloquear-Medidos :
      (pid tid : ℕ) (id : List ℕ) (x : Semaforo) (p : Programa E) (h : Hilo E) (s : Suse E)
      → Medidos s
      → lookup id s.semaforos ≡ some x
      → leb_ℤ (pos 1) x.valor_actual ≡ false
      → Logra Medidos (wait_bloquear pid tid id p h s)
  unfolding wait_bloquear
  wait_bloquear-Medidos pid tid id x p h s c e b = elim (Bool-cases (h.tid == tid)) [
    | inl t ↦ rw t (
        Logra-desref Medidos (lookup id s.blocked_por_semaforo) _ λ q y.
          let (r, z, m) = c id x e in
          con_cola-Medidos id x (q ++ h ∷ []) s c e (vale_cero x r (q ++ h ∷ []) b m))
    | inr t ↦ rw t tt
  ]

  pub sem_suse_wait-Medidos :
      (pid tid : ℕ) (id : List ℕ) (s : Suse E)
      → Medidos s
      → Logra Medidos (sem_suse_wait pid tid id s)
  unfolding sem_suse_wait
  sem_suse_wait-Medidos pid tid id s c = elim (Option-cases (lookup id s.semaforos)) [
    | inl e ↦ rw (e, sem_suse_wait) c
    | inr (x, e) ↦
        let (q, f, m) = c id x e in
        elim (Bool-cases (leb_ℤ (pos 1) x.valor_actual)) [
          | inl b ↦
              rw (e, sem_suse_wait) (rw b (con_semaforo-Medidos id _ q s c f (quita_uno x q b m)))
          | inr b ↦
              rw (e, sem_suse_wait)
                (rw b (
                  Logra-desref Medidos (lookup pid s.programas) _ λ p y.
                    Logra-desref Medidos p.exec _
                      λ h z. wait_bloquear-Medidos pid tid id x p h s c e b))
        ]
  ]

  desbloquear_programa-Intactos :
      (pid : ℕ) (s : Suse E) → Logra (Intactos s) (desbloquear_programa pid s)
  unfolding desbloquear_programa
  desbloquear_programa-Intactos pid s =
      Logra-desref (Intactos s) (lookup pid s.programas) _
        λ p x. elim (Bool-cases p.esta_bloqueado) [ inl b ↦ rw b refl | inr b ↦ rw b refl ]

  signal_con_cola-Medidos :
      (pid : ℕ) (id : List ℕ) (x : Semaforo) (q : List (Hilo E)) (s : Suse E)
      → Medidos s
      → lookup id s.semaforos ≡ some x
      → lookup id s.blocked_por_semaforo ≡ some q
      → Medido x q
      → inc x.valor_actual ≤ℤ x.valor_maximo
      → Logra Medidos (signal_con_cola pid id x q s)
  unfolding signal_con_cola sacar_1_hilo
  signal_con_cola-Medidos pid id x [] s c e f (l, u, m) b =
      con_semaforo-Medidos id _ [] s c f (omega (arith, inc_parts x.valor_actual), b, inl refl)
  signal_con_cola-Medidos pid id x (h ∷ r) s c e f (l, u, inl m) b = cc
  signal_con_cola-Medidos pid id x (h ∷ r) s c e f (l, u, inr m) b =
      let s0 = con_cola id r s in
      let c0 = con_cola-Medidos id x r s c e (l, u, inr m) in
      Logra->>= (Intactos s0) Medidos (pasar_a_ready h s0) _ (pasar_a_ready-Intactos h s0) λ s1 y v.
        Logra->>= (Intactos s1) Medidos (desbloquear_programa h.pid s1) _
          (desbloquear_programa-Intactos h.pid s1)
          λ s2 z w.
            Logra-desref Medidos (lookup pid s2.programas) _
              λ p k. Intactos-Medidos s0 s2 (w ∙ v) c0

  pub sem_suse_signal-Medidos :
      (pid : ℕ) (id : List ℕ) (s : Suse E) → Medidos s → Logra Medidos (sem_suse_signal pid id s)
  unfolding sem_suse_signal
  sem_suse_signal-Medidos pid id s c = elim (Option-cases (lookup id s.semaforos)) [
    | inl e ↦ rw (e, sem_suse_signal) c
    | inr (x, e) ↦
        let (q, f, m) = c id x e in
        elim (Bool-cases (leb_ℤ (inc x.valor_actual) x.valor_maximo)) [
          | inl b ↦
              rw (e, sem_suse_signal)
                (rw (b, f) (signal_con_cola-Medidos pid id x q s c e f m (ground arith)))
          | inr b ↦ rw (e, sem_suse_signal) (rw b c)
        ]
  ]
