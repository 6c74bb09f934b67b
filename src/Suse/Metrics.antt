-- ===== src/Suse/Metrics.antt =====
-- The metrics that change the state: `tomarMetricas`, which measures how long each thread has lived
-- and then clears the totals (SUSE.c). The passes that only write to the log are not modelled.
pub mod Frame
use linuse_tp_os.Base.{
  ℕ, Option, none, some, List, [], ◌∷◌, clave_nombre, clave_numero, Resultado, ok, ◌>>=◌, Dict,
}
use linuse_tp_os.Suse.Model.{Hilo, Suse, get_microtime, leido, programa_de, con_programa}
use linuse_tp_os.Suse.Schedule.{lapso, sumar}

module _ {E : Type 0} where
  -- `tomarMetricasTiemposDeEjecucionPara1Hilo`.
  unfoldable pub medir_hilo : Hilo E → Suse E → Resultado (Hilo E × Suse E)
  unfolding lapso sumar
  medir_hilo h s = do
    let tiempo = lapso (get_microtime s) h.timestamp_creacion
    p ← programa_de h.pid s
    ok (
      record h { tiempo_de_ejecucion = tiempo },
      con_programa h.pid
          (record p {
            tiempo_de_ejecucion_de_todos_los_hilos =
                sumar p.tiempo_de_ejecucion_de_todos_los_hilos tiempo;
          })
          (leido s),
    )

  -- `list_iterate`.
  unfoldable pub medir_lista : List (Hilo E) → Suse E → Resultado (List (Hilo E) × Suse E)
  medir_lista [] s = ok ([], s)
  medir_lista (h ∷ r) s = do
    (h', s1) ← medir_hilo h s
    (r', s2) ← medir_lista r s1
    ok (h' ∷ r', s2)

  -- `dictionary_iterator` over lists of threads.
  unfoldable pub medir_listas :
      Dict ℕ (List (Hilo E)) → Suse E → Resultado (Dict ℕ (List (Hilo E)) × Suse E)
  medir_listas [] s = ok ([], s)
  medir_listas ((k, l) ∷ d) s = do
    (l', s1) ← medir_lista l s
    (d', s2) ← medir_listas d s1
    ok ((k, l') ∷ d', s2)

  -- `tomarMetricasParaLosNews`: every thread is popped, measured, and pushed back in order.
  unfoldable pub medir_news : Suse E → Resultado (Suse E)
  medir_news s = do (l, s') ← medir_lista s.new s; ok (record s' { new = l })

  unfoldable pub medir_ready : Suse E → Resultado (Suse E)
  medir_ready s = do (d, s') ← medir_listas s.ready s; ok (record s' { ready = d })

  unfoldable pub medir_blocked_de : ℕ → Suse E → Resultado (Suse E)
  medir_blocked_de pid s = do
    p ← programa_de pid s
    (d, s') ← medir_listas p.blocked s
    p' ← programa_de pid s'
    ok (con_programa pid (record p' { blocked = d }) s')

  unfoldable pub medir_exec : ℕ → Option (Hilo E) → Suse E → Resultado (Suse E)
  medir_exec pid none s = ok s
  medir_exec pid (some h) s = do
    (h', s') ← medir_hilo h s
    p' ← programa_de pid s'
    ok (con_programa pid (record p' { exec = some h' }) s')

  unfoldable pub medir_exec_de : ℕ → Suse E → Resultado (Suse E)
  unfolding medir_exec
  medir_exec_de pid s = do p ← programa_de pid s; medir_exec pid p.exec s

  -- One action for each entry of a dictionary, by its key.
  unfoldable pub por_cada {ℓ κ} :
      {K : Type ℓ} {V : Type κ}
      → Dict K V
      → (K → Suse E → Resultado (Suse E))
      → Suse E
      → Resultado (Suse E)
  por_cada [] f s = ok s
  por_cada ((k, v) ∷ d) f s = do s' ← f k s; por_cada d f s'

  -- `reiniciarTiempoDeEjecucionDe1Programa`.
  unfoldable pub reiniciar_de : ℕ → Suse E → Resultado (Suse E)
  reiniciar_de pid s = do
    p ← programa_de pid s
    ok (con_programa pid (record p { tiempo_de_ejecucion_de_todos_los_hilos = 0 }) s)

  -- The pass over Ready visits the whole dictionary once for each of its keys, and the pass over the
  -- semaphores measures the threads in New once for each semaphore.
  unfoldable pub tomar_metricas : Suse E → Resultado (Suse E)
  unfolding medir_news medir_ready medir_blocked_de medir_exec_de por_cada reiniciar_de
  tomar_metricas s = do
    s1 ← medir_news s
    s2 ← por_cada s1.programas medir_blocked_de s1
    s3 ← por_cada s2.ready (λ _. medir_ready) s2
    s4 ← por_cada s3.programas medir_exec_de s3
    s5 ← por_cada s4.blocked_por_semaforo (λ _. medir_news) s4
    por_cada s5.programas reiniciar_de s5
