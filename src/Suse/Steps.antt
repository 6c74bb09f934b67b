-- ===== src/Suse/Steps.antt =====
-- The server as a whole: the requests that `iniciarConexion` dispatches, the planner thread, the
-- programs that wake up and the periodic metrics, in any order (SUSE.c). A step is an operation that returns.
pub mod Values
use linuse_tp_os.Base.{ℕ, ◌≡◌, refl, none, List, clave_nombre, clave_numero, ok, Logra-ok, lookup}
use linuse_tp_os.Suse.Model.{Reales, Suse}
use linuse_tp_os.Suse.Ready.{crear_hilo, tomar_nuevo, admitir}
use linuse_tp_os.Suse.Schedule.{Eleccion, Ordenar, siguiente_a_ejecutar, despertar}
use linuse_tp_os.Suse.Semaphore.{sem_suse_signal, sem_suse_wait}
use linuse_tp_os.Suse.Thread.{realizar_join, realizar_close}
use linuse_tp_os.Suse.Program.{SemConfig, iniciar_suse, crear_programa, desconectar}
use linuse_tp_os.Suse.Invariant.{IsCoherente}
use linuse_tp_os.Suse.Invariant.Admission.{
  crear_programa-IsCoherente, desconectar-IsCoherente, crear_hilo-IsCoherente,
  tomar_nuevo-IsCoherente, admitir-IsCoherente,
}
use linuse_tp_os.Suse.Invariant.Choice.{
  IsOrdenar, PuedePedir, estado_de, despertar-IsCoherente, siguiente_a_ejecutar-IsCoherente,
}
use linuse_tp_os.Suse.Invariant.Waiting.{
  sem_suse_signal-IsCoherente, sem_suse_wait-IsCoherente, realizar_join-IsCoherente,
}
use linuse_tp_os.Suse.Invariant.Closing.{tomar_metricas-IsCoherente, realizar_close-IsCoherente}
use linuse_tp_os.Suse.Metrics.{tomar_metricas}

-- `accept` gives a descriptor that is not in use. A program asks for its next thread only when it does
-- not wait for an earlier answer.
pub data Paso {E : Type 0} (R : Reales E) (ordenar : Ordenar E) (s : Suse E) : Suse E → Type 0 where
  conecta : (pid : ℕ) → lookup pid s.programas ≡ none → Paso R ordenar s (crear_programa pid s)
  desconecta : (pid : ℕ) → Paso R ordenar s (desconectar pid s)
  crea : (pid tid : ℕ) {t : Suse E} → crear_hilo R pid tid s ≡ ok t → Paso R ordenar s t
  toma : {t : Suse E} → s.en_mano ≡ none → tomar_nuevo s ≡ ok t → Paso R ordenar s t
  admite : {t : Suse E} → admitir s ≡ ok t → Paso R ordenar s t
  elige :
      (pid : ℕ) {r : Eleccion E}
      → PuedePedir pid s
      → siguiente_a_ejecutar R ordenar pid s ≡ ok r
      → Paso R ordenar s (estado_de r)
  despierta : (pid : ℕ) {r : Suse E × ℕ} → despertar pid s ≡ ok r → Paso R ordenar s r.0
  espera_sem :
      (pid tid : ℕ) (id : List ℕ) {t : Suse E}
      → sem_suse_wait pid tid id s ≡ ok t
      → Paso R ordenar s t
  avisa_sem :
      (pid : ℕ) (id : List ℕ) {t : Suse E} → sem_suse_signal pid id s ≡ ok t → Paso R ordenar s t
  espera_hilo : (pid tid : ℕ) → Paso R ordenar s (realizar_join pid tid s)
  cierra : (pid tid : ℕ) {t : Suse E} → realizar_close pid tid s ≡ ok t → Paso R ordenar s t
  mide : {t : Suse E} → tomar_metricas s ≡ ok t → Paso R ordenar s t

pub data Alcanza {E : Type 0} (R : Reales E) (ordenar : Ordenar E) (s : Suse E)
    : Suse E → Type 0 where
  aqui : Alcanza R ordenar s s
  sigue : {t u : Suse E} → Alcanza R ordenar s t → Paso R ordenar t u → Alcanza R ordenar s u

module _ {E : Type 0} (R : Reales E) (ordenar : Ordenar E) (o : IsOrdenar ordenar) where
  pub Paso-IsCoherente : {s t : Suse E} → Paso R ordenar s t → IsCoherente s → IsCoherente t
  Paso-IsCoherente {s} (conecta pid e) c = crear_programa-IsCoherente pid s c e
  Paso-IsCoherente {s} (desconecta pid) c = desconectar-IsCoherente pid s c
  Paso-IsCoherente {s} (crea pid tid e) c =
      Logra-ok IsCoherente _ _ (crear_hilo-IsCoherente R pid tid s c) e
  Paso-IsCoherente {s} (toma m e) c = Logra-ok IsCoherente _ _ (tomar_nuevo-IsCoherente s c) e
  Paso-IsCoherente {s} (admite e) c = Logra-ok IsCoherente _ _ (admitir-IsCoherente s c) e
  Paso-IsCoherente {s} (elige pid w e) c =
      Logra-ok (λ r. IsCoherente (estado_de r)) _ _
        (siguiente_a_ejecutar-IsCoherente R ordenar o pid s c w) e
  Paso-IsCoherente {s} (despierta pid e) c =
      Logra-ok (λ r. IsCoherente r.0) _ _ (despertar-IsCoherente pid s c) e
  Paso-IsCoherente {s} (espera_sem pid tid id e) c =
      Logra-ok IsCoherente _ _ (sem_suse_wait-IsCoherente pid tid id s c) e
  Paso-IsCoherente {s} (avisa_sem pid id e) c =
      Logra-ok IsCoherente _ _ (sem_suse_signal-IsCoherente pid id s c) e
  Paso-IsCoherente {s} (espera_hilo pid tid) c = realizar_join-IsCoherente pid tid s c
  Paso-IsCoherente {s} (cierra pid tid e) c =
      Logra-ok IsCoherente _ _ (realizar_close-IsCoherente pid tid s c) e
  Paso-IsCoherente {s} (mide e) c = Logra-ok IsCoherente _ _ (tomar_metricas-IsCoherente s c) e

  Alcanza-IsCoherente : {s t : Suse E} → IsCoherente s → Alcanza R ordenar s t → IsCoherente t
  Alcanza-IsCoherente c aqui = c
  Alcanza-IsCoherente c (sigue a p) = Paso-IsCoherente p (Alcanza-IsCoherente c a)

  iniciar_suse-IsCoherente :
      (cs : List SemConfig) (grado : ℕ) (reloj : ℕ → ℕ)
      → IsCoherente {E = E} (iniciar_suse cs grado reloj)
  unfolding iniciar_suse lookup
  iniciar_suse-IsCoherente cs grado reloj pid = refl

  -- In every state that the server reaches from its start, by any order of requests, admissions,
  -- metrics and wake-ups: a number with no program has no Ready list; the counter of threads in Ready
  -- of each program is the length of its list; a program that waits for its next thread executes none.
  pub reachable-IsCoherente :
      (cs : List SemConfig) (grado : ℕ) (reloj : ℕ → ℕ) {t : Suse E}
      → Alcanza R ordenar (iniciar_suse cs grado reloj) t
      → IsCoherente t
  reachable-IsCoherente cs grado reloj a =
      Alcanza-IsCoherente (iniciar_suse-IsCoherente cs grado reloj) a
