-- ===== src/Suse/Runs.antt =====
-- The threads that the server holds along its runs (SUSE.c).
use linuse_tp_os.Base.{
  ℕ, ◌+◌, ◌≤◌, ◌≡◌, Bool, List, [], ◌∷◌, arith, if◌then◌else◌, clave_nombre, clave_numero, Logra-ok,
  Dict, insert, suma, suma-insert,
}
use linuse_tp_os.Suse.Model.{Reales, Hilo, Suse}
use linuse_tp_os.Suse.Schedule.{Ordenar}
use linuse_tp_os.Suse.Program.{SemConfig, colas_de, iniciar_suse}
use linuse_tp_os.Suse.Invariant.Choice.{IsOrdenar}
use linuse_tp_os.Suse.Invariant.{IsCoherente}
use linuse_tp_os.Suse.Steps.{
  Paso, conecta, desconecta, crea, toma, admite, elige, despierta, espera_sem, avisa_sem,
  espera_hilo, cierra, mide, Alcanza, aqui, sigue, reachable-IsCoherente,
}
use linuse_tp_os.Suse.Count.{en_lista, hilos}
use linuse_tp_os.Suse.Count.Moves.{
  crear_programa-hilos, crear_hilo-hilos, tomar_nuevo-hilos, admitir-hilos,
}
use linuse_tp_os.Suse.Count.Choice.{despertar-hilos, siguiente_a_ejecutar-hilos}
use linuse_tp_os.Suse.Count.Waiting.{sem_suse_signal-hilos, sem_suse_wait-hilos}
use linuse_tp_os.Suse.Count.Closing.{
  realizar_join-hilos, tomar_metricas-hilos, desconectar-hilos, realizar_close-hilos,
}

module _ {E : Type 0} (q : ℕ → ℕ → Bool) {R : Reales E} {ordenar : Ordenar E} where
  -- How many threads that pass `q` a step creates, and a run.
  abbrev pub creados_en : {s t : Suse E} → Paso R ordenar s t → ℕ
  creados_en (conecta pid e) = 0
  creados_en (desconecta pid) = 0
  creados_en (crea pid tid e) = if q pid tid then 1 else 0
  creados_en (toma m e) = 0
  creados_en (admite e) = 0
  creados_en (elige pid w e) = 0
  creados_en (despierta pid e) = 0
  creados_en (espera_sem pid tid id e) = 0
  creados_en (avisa_sem pid id e) = 0
  creados_en (espera_hilo pid tid) = 0
  creados_en (cierra pid tid e) = 0
  creados_en (mide e) = 0

  abbrev pub creados : {s t : Suse E} → Alcanza R ordenar s t → ℕ
  creados aqui = 0
  creados (sigue a p) = creados a + creados_en p

module _ {E : Type 0} (q : ℕ → ℕ → Bool) (R : Reales E) (ordenar : Ordenar E)
    (o : IsOrdenar ordenar) where
  Paso-hilos :
      {s t : Suse E} (p : Paso R ordenar s t)
      → IsCoherente s
      → hilos q t ≤ hilos q s + creados_en q p
  Paso-hilos {s} (conecta pid e) c = omega (arith, crear_programa-hilos q pid s e)
  Paso-hilos {s} (desconecta pid) c = omega (arith, desconectar-hilos q pid s)
  Paso-hilos {s} {t} (crea pid tid e) c =
      let k = Logra-ok _ _ t (crear_hilo-hilos q R pid tid s) e in omega (arith, k)
  Paso-hilos {s} {t} (toma m e) c =
      let k = Logra-ok _ _ t (tomar_nuevo-hilos q s m) e in omega (arith, k)
  Paso-hilos {s} {t} (admite e) c =
      let k = Logra-ok _ _ t (admitir-hilos q s c) e in omega (arith, k)
  Paso-hilos {s} (elige pid {r = r} w e) c =
      let k = Logra-ok _ _ r (siguiente_a_ejecutar-hilos q R ordenar o pid s) e in omega (arith, k)
  Paso-hilos {s} (despierta pid {r = r} e) c =
      let k = Logra-ok _ _ r (despertar-hilos q pid s c) e in omega (arith, k)
  Paso-hilos {s} {t} (espera_sem pid tid id e) c =
      let k = Logra-ok _ _ t (sem_suse_wait-hilos q pid tid id s) e in omega (arith, k)
  Paso-hilos {s} {t} (avisa_sem pid id e) c =
      let k = Logra-ok _ _ t (sem_suse_signal-hilos q pid id s c) e in omega (arith, k)
  Paso-hilos {s} (espera_hilo pid tid) c = omega (arith, realizar_join-hilos q pid tid s)
  Paso-hilos {s} {t} (cierra pid tid e) c =
      let k = Logra-ok _ _ t (realizar_close-hilos q pid tid s) e in omega (arith, k)
  Paso-hilos {s} {t} (mide e) c =
      let k = Logra-ok _ _ t (tomar_metricas-hilos q s) e in omega (arith, k)

  colas_vacias :
      (cs : List SemConfig) (d : Dict (List ℕ) (List (Hilo E)))
      → suma (en_lista q) (colas_de cs d) ≤ suma (en_lista q) d
  unfolding colas_de
  colas_vacias [] d = omega arith
  colas_vacias (c ∷ cs) d =
      omega (arith, colas_vacias cs (insert c.id [] d), suma-insert (en_lista q) c.id [] d)

  inicio_vacio :
      (cs : List SemConfig) (grado : ℕ) (reloj : ℕ → ℕ)
      → hilos q (iniciar_suse {E = E} cs grado reloj) ≡ 0
  unfolding hilos iniciar_suse suma
  inicio_vacio cs grado reloj = omega (arith, colas_vacias cs [])

  -- In every run of the server from its start, the threads of any set of programs and thread numbers
  -- stand in no more places (New, the planner's hand, Ready, Execute, the lists of joiners, the queues
  -- of the semaphores, Exit) than there were requests to create one: a thread that is created once is never in two places.
  pub reachable-hilos :
      (cs : List SemConfig) (grado : ℕ) (reloj : ℕ → ℕ) {t : Suse E}
      (a : Alcanza R ordenar (iniciar_suse cs grado reloj) t)
      → hilos q t ≤ creados q a
  reachable-hilos cs grado reloj aqui = omega (arith, inicio_vacio cs grado reloj)
  reachable-hilos cs grado reloj (sigue a p) =
      let k = Paso-hilos p (reachable-IsCoherente R ordenar o cs grado reloj a) in
      omega (arith, reachable-hilos cs grado reloj a, k)
