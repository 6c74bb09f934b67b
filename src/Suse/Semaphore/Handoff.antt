-- ===== src/Suse/Semaphore/Handoff.antt =====
-- A signal on a semaphore that threads wait for (`sem_suse_signal`,
-- `sacar1HiloDeLaColaDeBloqueadosPorSemaforo` and `pasarAReady` of SUSE.c).
use linuse_tp_os.Base.{
  ℕ, ◌≡◌, refl, ap, ◌∙◌, subst, ◌⊎◌, inl, inr, true, false, some, List, [], ◌∷◌, ◌++◌, ◌==◌, ==_iff,
  Bool-cases, clave_nombre, clave_numero, leb_ℤ, inc, dec, ok, Garantiza, Garantiza->>=,
  Garantiza-desref, Dict, lookup, insert, lookup-insert, lookup-insert_self,
}
use linuse_tp_os.Suse.Model.{
  Hilo, Semaforo, Programa, Suse, get_microtime, leido, con_programa, con_ready,
}
use linuse_tp_os.Suse.Ready.{pasar_a_ready}
use linuse_tp_os.Suse.Semaphore.{
  con_cola, desbloquear_programa, sacar_1_hilo, signal_con_cola, sem_suse_signal,
}

-- The program is there, and is not blocked.
abbrev pub Despierto : {E : Type 0} → ℕ → Suse E → Type 0
Despierto {E} k t = (p : Programa E) × (lookup k t.programas ≡ some p) × (p.esta_bloqueado ≡ false)

-- What a program `p` is when one of its threads became ready: not blocked, with its mutex released if
-- it waited on it, and as before otherwise.
abbrev pub Libera : {E : Type 0} → Programa E → Programa E → Type 0
Libera p q =
    (q.esta_bloqueado ≡ false)
    × (((p.esta_bloqueado ≡ true) × (q.mutex_tomado ≡ false))
        ⊎ ((p.esta_bloqueado ≡ false) × (q.mutex_tomado ≡ p.mutex_tomado)))

abbrev pub Liberado : {E : Type 0} → ℕ → Programa E → Suse E → Type 0
Liberado {E} k p t = (q : Programa E) × (lookup k t.programas ≡ some q) × Libera p q

-- The first thread `h` of the queue was handed over: it is the last in Ready of its program `p`, which
-- is not blocked and can go on, and the semaphore keeps its value.
pub record Entrega {E : Type 0} (id : List ℕ) (h : Hilo E) (p : Programa E) (l r : List (Hilo E))
    (s t : Suse E) : Type 0 where
  pub semaforos : t.semaforos ≡ s.semaforos
  pub cola : t.blocked_por_semaforo ≡ insert id r s.blocked_por_semaforo
  pub ready : lookup h.pid t.ready ≡ some (l ++ record h { timestamp_ready = get_microtime s } ∷ [])
  pub liberado : Liberado h.pid p t

pub lookup-insert-some :
    {V : Type 0} (k j : ℕ) (v : V) (d : Dict ℕ V) {w : V}
    → lookup j d ≡ some w
    → (u : V) × (lookup j (insert k v d) ≡ some u)
lookup-insert-some k j v d {w} e = elim (Bool-cases (k == j)) [
  | inl t ↦ (v, rw (lookup-insert k j v d, t) refl)
  | inr t ↦ (w, rw (lookup-insert k j v d, t) e)
]

module _ {E : Type 0} where
  pasar_a_ready_lem :
      (h : Hilo E) (l : List (Hilo E)) (p : Programa E) (s : Suse E)
      → lookup h.pid s.ready ≡ some l
      → lookup h.pid s.programas ≡ some p
      → pasar_a_ready h s
        ≡ ok (
            con_programa h.pid
              (record p { cantidad_de_hilos_en_ready = inc p.cantidad_de_hilos_en_ready })
              (con_ready h.pid
                (l ++ record h { timestamp_ready = get_microtime s } ∷ [])
                (leido s)))
  unfolding pasar_a_ready
  pasar_a_ready_lem h l p s f e = rw (f, pasar_a_ready) (rw e refl)

  -- A program that is written again with the same flags.
  Liberado-insert :
      (k j : ℕ) (p0 p q : Programa E) (s : Suse E)
      → lookup k s.programas ≡ some p
      → q.esta_bloqueado ≡ p.esta_bloqueado
      → q.mutex_tomado ≡ p.mutex_tomado
      → Liberado j p0 s
      → Liberado j p0 (con_programa k q s)
  Liberado-insert k j p0 p q s e f m (o, g, b) = elim (Bool-cases (k == j)) [
    | inl t ↦
        let i : k ≡ j = (==_iff k j).0 t in
        let e' : lookup j s.programas ≡ some p = subst (λ z. lookup z s.programas ≡ some p) i e in
        let w : some o ≡ some p = cc in
        let w' : o ≡ p = cc in
        (q, rw (lookup-insert k j q s.programas, t) refl, rw (f, m) (subst (Libera p0) w' b))
    | inr t ↦ (o, rw (lookup-insert k j q s.programas, t) g, b)
  ]

  -- What `desbloquear_programa` leaves of the state.
  desbloquear_programa-Liberado :
      (k pid : ℕ) (p p0 : Programa E) (s : Suse E)
      → lookup k s.programas ≡ some p
      → lookup pid s.programas ≡ some p0
      → Garantiza
          (λ t.
            Liberado k p t
            × ((q : Programa E) × (lookup pid t.programas ≡ some q))
            × (record t { programas = s.programas } ≡ s))
          (desbloquear_programa k s)
  unfolding desbloquear_programa
  desbloquear_programa-Liberado k pid p p0 s e e0 =
      let P = λ (t : Suse E).
        Liberado k p t
        × ((q : Programa E) × (lookup pid t.programas ≡ some q))
        × (record t { programas = s.programas } ≡ s) in
      Garantiza-desref P (lookup k s.programas) p _ e (elim (Bool-cases p.esta_bloqueado) [
        | inl b ↦
            let q = record p { mutex_tomado = false; esta_bloqueado = false } in
            rw b (
              (q, lookup-insert_self k q s.programas, (refl, inl (refl, refl))),
              lookup-insert-some k pid q s.programas e0,
              refl,
            )
        | inr b ↦ rw b ((p, e, (b, inr (refl, refl))), (p0, e0), refl)
      ])

  sacar_1_hilo-Entrega :
      (pid : ℕ) (id : List ℕ) (h : Hilo E) (r l : List (Hilo E)) (p p0 : Programa E) (s : Suse E)
      → lookup h.pid s.ready ≡ some l
      → lookup h.pid s.programas ≡ some p
      → lookup pid s.programas ≡ some p0
      → Garantiza (Entrega id h p l r s) (sacar_1_hilo pid id (h ∷ r) s)
  unfolding sacar_1_hilo
  sacar_1_hilo-Entrega pid id h r l p p0 s f e e0 =
      let s0 = con_cola id r s in
      let p1 = record p { cantidad_de_hilos_en_ready = inc p.cantidad_de_hilos_en_ready } in
      let h' = record h { timestamp_ready = get_microtime s } in
      let s1 = con_programa h.pid p1 (con_ready h.pid (l ++ h' ∷ []) (leido s0)) in
      let (q0, g0) = lookup-insert-some h.pid pid p1 s.programas e0 in
      rw (pasar_a_ready_lem h l p s0 f e) (
        Garantiza->>= _ (Entrega id h p l r s) (desbloquear_programa h.pid s1) _
          (desbloquear_programa-Liberado h.pid pid p1 q0 s1
            (lookup-insert_self h.pid p1 s.programas) g0)
          λ s2 _ k.
            let (d, y, resto) = k in
            let (p2, g2) = y in
            let p3 = record p2 {
              cantidad_de_hilos_en_blocked = dec p2.cantidad_de_hilos_en_blocked;
            } in
            Garantiza-desref (Entrega id h p l r s) (lookup pid s2.programas) p2 _ g2 (record {
              semaforos = ap (λ (z : Suse E). z.semaforos) resto;
              cola = ap (λ (z : Suse E). z.blocked_por_semaforo) resto;
              ready =
                  ap (λ (z : Suse E). lookup h.pid z.ready) resto
                  ∙ lookup-insert_self h.pid (l ++ h' ∷ []) s.ready;
              liberado = Liberado-insert pid h.pid p p2 p3 s2 g2 refl refl d;
            }))

  -- A signal below the maximum, on a semaphore that threads wait for: the first of the queue, whose
  -- program and Ready list exist, becomes the last in Ready of its program; if the program was blocked,
  -- waiting on its mutex, it is not blocked afterwards and its mutex is released, and otherwise both are
  -- as before; the rest of the queue stays in order, and no semaphore changes its value.
  pub sem_suse_signal-Entrega :
      (pid : ℕ) (id : List ℕ) (h : Hilo E) (r l : List (Hilo E)) (p p0 : Programa E) (x : Semaforo)
      (s : Suse E)
      → lookup id s.semaforos ≡ some x
      → leb_ℤ (inc x.valor_actual) x.valor_maximo ≡ true
      → lookup id s.blocked_por_semaforo ≡ some (h ∷ r)
      → lookup h.pid s.ready ≡ some l
      → lookup h.pid s.programas ≡ some p
      → lookup pid s.programas ≡ some p0
      → Garantiza (Entrega id h p l r s) (sem_suse_signal pid id s)
  unfolding sem_suse_signal signal_con_cola
  sem_suse_signal-Entrega pid id h r l p p0 x s ex m eq f e e0 =
      rw (ex, sem_suse_signal) (rw (m, eq) (sacar_1_hilo-Entrega pid id h r l p p0 s f e e0))
