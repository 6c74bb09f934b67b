-- ===== src/Suse/Semaphore.antt =====
-- The semaphores that programs share: `sem_suse_wait`, `sem_suse_signal` and
-- `sacar1HiloDeLaColaDeBloqueadosPorSemaforo` of SUSE.c.
pub mod Handoff
pub mod Waiters
pub mod Wakeup
use linuse_tp_os.Base.{
  ℕ, false, none, some, List, [], ◌∷◌, ◌++◌, ◌==◌, if◌then◌else◌, clave_nombre, clave_numero, pos,
  leb_ℤ, inc, dec, salida, Resultado, ok, fallo, ◌>>=◌, desref, lookup, insert,
}
use linuse_tp_os.Suse.Model.{Hilo, Semaforo, Programa, Suse, programa_de, con_programa}
use linuse_tp_os.Suse.Ready.{pasar_a_ready}

module _ {E : Type 0} where
  abbrev pub con_semaforo : List ℕ → Semaforo → Suse E → Suse E
  con_semaforo id x s = record s { semaforos = insert id x s.semaforos }

  abbrev pub con_cola : List ℕ → List (Hilo E) → Suse E → Suse E
  con_cola id q s = record s { blocked_por_semaforo = insert id q s.blocked_por_semaforo }

  -- The program of a thread that became ready goes on, if it waited for one.
  unfoldable pub desbloquear_programa : ℕ → Suse E → Resultado (Suse E)
  desbloquear_programa pid s = do
    p ← programa_de pid s
    ok (
        if p.esta_bloqueado
        then con_programa pid (record p { mutex_tomado = false; esta_bloqueado = false }) s
        else s)

  -- `sacar1HiloDeLaColaDeBloqueadosPorSemaforo`, with the queue of the semaphore. The counter that it
  -- decrements is that of `pid`, the program that signals.
  unfoldable pub sacar_1_hilo : ℕ → List ℕ → List (Hilo E) → Suse E → Resultado (Suse E)
  unfolding desbloquear_programa pasar_a_ready
  sacar_1_hilo pid id [] s = ok s
  sacar_1_hilo pid id (h ∷ resto) s = do
    s1 ← pasar_a_ready h (con_cola id resto s)
    s2 ← desbloquear_programa h.pid s1
    p ← programa_de pid s2
    ok (
        con_programa pid
          (record p { cantidad_de_hilos_en_blocked = dec p.cantidad_de_hilos_en_blocked }) s2)

  unfoldable pub signal_con_cola :
      ℕ → List ℕ → Semaforo → List (Hilo E) → Suse E → Resultado (Suse E)
  unfolding sacar_1_hilo
  signal_con_cola pid id x [] s =
      ok (con_semaforo id (record x { valor_actual = inc x.valor_actual }) s)
  signal_con_cola pid id x (h ∷ resto) s = sacar_1_hilo pid id (h ∷ resto) s

  -- `sem_suse_signal`: above the maximum, or with no such semaphore, nothing happens.
  unfoldable pub sem_suse_signal : ℕ → List ℕ → Suse E → Resultado (Suse E)
  unfolding signal_con_cola
  sem_suse_signal pid id s = elim (lookup id s.semaforos) [
    | none ↦ ok s
    | some x ↦
        if leb_ℤ (inc x.valor_actual) x.valor_maximo
        then (do q ← desref (lookup id s.blocked_por_semaforo); signal_con_cola pid id x q s)
        else ok s
  ]

  -- The executing thread goes to the end of the semaphore's queue.
  unfoldable pub wait_bloquear : ℕ → ℕ → List ℕ → Programa E → Hilo E → Suse E → Resultado (Suse E)
  wait_bloquear pid tid id p h s =
      if h.tid == tid
      then (do
        q ← desref (lookup id s.blocked_por_semaforo)
        let p' = record p {
          cantidad_de_hilos_en_blocked = inc p.cantidad_de_hilos_en_blocked;
          exec = none;
        }
        ok (con_programa pid p' (con_cola id (q ++ h ∷ []) s)))
      else fallo salida

  -- `sem_suse_wait`. A thread that is not executing ends the server.
  unfoldable pub sem_suse_wait : ℕ → ℕ → List ℕ → Suse E → Resultado (Suse E)
  unfolding wait_bloquear
  sem_suse_wait pid tid id s = elim (lookup id s.semaforos) [
    | none ↦ ok s
    | some x ↦
        if leb_ℤ (pos 1) x.valor_actual
        then ok (con_semaforo id (record x { valor_actual = dec x.valor_actual }) s)
        else (do p ← programa_de pid s; h ← desref p.exec; wait_bloquear pid tid id p h s)
  ]
