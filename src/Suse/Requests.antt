-- ===== src/Suse/Requests.antt =====
-- The requests of programs: the `switch` of `iniciarConexion` over the operation that was read, with
-- `atenderWait`, `atenderSignal`, `atenderJoin`, `atenderClose` and `atenderScheduleNext` (SUSE.c).
use linuse_tp_os.Base.{ℕ, Option, none, some, List, Resultado, ok, ◌>>=◌}
use linuse_tp_os.Suse.Model.{Reales, Suse}
use linuse_tp_os.Suse.Ready.{crear_hilo}
use linuse_tp_os.Suse.Schedule.{Eleccion, elegido, bloqueado, Ordenar, siguiente_a_ejecutar}
use linuse_tp_os.Suse.Semaphore.{sem_suse_signal, sem_suse_wait}
use linuse_tp_os.Suse.Thread.{realizar_join, realizar_close}

-- The operation, 1 to 6, with what the handler reads after it. Any other number is ignored.
pub data Peticion : Type 0 where
  suse_create : ℕ → Peticion
  suse_schedule_next : Peticion
  suse_wait : ℕ → List ℕ → Peticion
  suse_signal : ℕ → List ℕ → Peticion
  suse_join : ℕ → Peticion
  suse_close : ℕ → Peticion
  desconocida : ℕ → Peticion

module _ {E : Type 0} (R : Reales E) (ordenar : Ordenar E) where
  -- The state, and the number of the thread that is sent back, where there is one to send.
  unfoldable pub respuesta : Eleccion E → Suse E × Option ℕ
  respuesta (elegido tid s) = (s, some tid)
  respuesta (bloqueado s) = (s, none)

  abbrev pub sin_respuesta : Resultado (Suse E) → Resultado (Suse E × Option ℕ)
  sin_respuesta m = do s ← m; ok (s, none)

  unfoldable pub atender : ℕ → Peticion → Suse E → Resultado (Suse E × Option ℕ)
  unfolding respuesta
  atender sd (suse_create tid) s = sin_respuesta (crear_hilo R sd tid s)
  atender sd suse_schedule_next s = do r ← siguiente_a_ejecutar R ordenar sd s; ok (respuesta r)
  atender sd (suse_wait tid id) s = sin_respuesta (sem_suse_wait sd tid id s)
  atender sd (suse_signal tid id) s = sin_respuesta (sem_suse_signal sd id s)
  atender sd (suse_join tid) s = ok (realizar_join sd tid s, none)
  atender sd (suse_close tid) s = sin_respuesta (realizar_close sd tid s)
  atender sd (desconocida n) s = ok (s, none)
