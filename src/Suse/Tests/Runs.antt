-- ===== src/Suse/Tests/Runs.antt =====
-- Runs of the server of SUSE.c on a few requests.
use linuse_tp_os.Base.{
  ℕ, ◌+◌, ◌*◌, ◌/◌, ◌≤◌, ◌≡◌, refl, Bool, true, some, List, [], ◌∷◌, arith, ltb, leb, clave_nombre,
  clave_numero, pos, inc, Resultado, ok, fallo, Logra, Garantiza, lookup, insert, erase,
}
use linuse_tp_os.Suse.Model.{Reales, Hilo, Programa, Suse, con_programa, con_ready}
use linuse_tp_os.Suse.Schedule.Minimal.{IsReales, Minima, siguiente_a_ejecutar-Minima}
use linuse_tp_os.Suse.Program.{
  SemConfig, semaforos_de, colas_de, iniciar_suse, programa_nuevo, crear_programa,
}
use linuse_tp_os.Suse.Ready.{
  hilo_nuevo, crear_hilo, pasar_a_ready, tomar_con, tomar_nuevo, admitir_con, admitir,
}
use linuse_tp_os.Suse.Steps.{
  conecta, crea, toma, admite, Alcanza, aqui, sigue, reachable-IsCoherente,
}
use linuse_tp_os.Suse.Invariant.{IsCoherente}
use linuse_tp_os.Suse.Schedule.{Ordenar, siguiente_a_ejecutar}
use linuse_tp_os.Suse.Tests.Sort.{por_insercion, por_insercion-IsOrdenar}
use linuse_tp_os.Suse.Count.{hilos}
use linuse_tp_os.Suse.Count.Choice.{siguiente_a_ejecutar-hilos}
use linuse_tp_os.Suse.Count.Waiting.{sem_suse_wait-hilos}
use linuse_tp_os.Suse.Invariant.Choice.{estado_de}
use linuse_tp_os.Suse.Metrics.{tomar_metricas}
use linuse_tp_os.Suse.Metrics.Frame.{Conserva, tomar_metricas-Conserva}
use linuse_tp_os.Suse.Semaphore.{con_cola, sem_suse_signal, sem_suse_wait}
use linuse_tp_os.Suse.Semaphore.Handoff.{Entrega, sem_suse_signal-Entrega}
use linuse_tp_os.Suse.Runs.{creados, reachable-hilos}

-- Estimates that are numbers, with a half for ALPHA_SJF.
abbrev pub numeros : Reales ℕ
numeros = record { cero = 0; menor = ltb; menor_o_igual = leb; mezclar = λ e r. (e + r) / 2 }

numeros-IsReales : IsReales numeros
numeros-IsReales = record {
  total = λ a b h. ground arith;
  transitivo = λ a b c h k. ground arith;
  estricto = λ a b. ground arith;
}

abbrev pub ordenar_lista : Ordenar ℕ
ordenar_lista c l = por_insercion c l

abbrev pub tras : Suse ℕ → Resultado (Suse ℕ) → Suse ℕ
tras s (ok t) = t
tras s (fallo _) = s

-- The bytes of a name.
abbrev pub impresora : List ℕ
impresora = 105 ∷ 109 ∷ 112 ∷ []

abbrev pub configuracion : List SemConfig
configuracion = record { id = impresora; inicial = pos 0; maximo = pos 3 } ∷ []

abbrev pub diez : ℕ → ℕ
diez i = 10 * i

abbrev pub inicio : Suse ℕ
inicio = iniciar_suse configuracion 2 diez

abbrev pub conectado : Suse ℕ
conectado = crear_programa 7 inicio

abbrev con_hilo : Suse ℕ
con_hilo = tras conectado (crear_hilo numeros 7 1 conectado)

abbrev tomado : Suse ℕ
tomado = tras con_hilo (tomar_nuevo con_hilo)

abbrev pub admitido : Suse ℕ
admitido = tras tomado (admitir tomado)

-- A program connects, creates a thread, and the planner admits it.
abbrev pub corrida : Alcanza numeros ordenar_lista inicio admitido
unfolding iniciar_suse crear_programa crear_hilo tomar_nuevo tomar_con admitir admitir_con
    pasar_a_ready lookup insert erase
corrida =
    sigue (sigue (sigue (sigue aqui (conecta 7 refl)) (crea 7 1 refl)) (toma refl refl))
      (admite refl)

reachable-IsCoherente_example : IsCoherente admitido
reachable-IsCoherente_example =
    reachable-IsCoherente numeros ordenar_lista por_insercion-IsOrdenar configuracion 2 diez corrida

abbrev pub un_hilo : ℕ → ℕ → ℕ → Hilo ℕ
un_hilo pid tid estimacion = record (hilo_nuevo numeros pid tid 0) { estimacion = estimacion }

-- A program that has two threads in Ready and executes none, and another that executes one.
abbrev pub con_listos : Suse ℕ
con_listos =
    con_programa 7 (record (programa_nuevo 7) { cantidad_de_hilos_en_ready = pos 2 })
      (con_ready 7 (un_hilo 7 1 5 ∷ un_hilo 7 2 3 ∷ [])
        (con_programa 8 (record (programa_nuevo 8) { exec = some (un_hilo 8 1 4) }) inicio))

-- The same, where two threads of the first wait for the semaphore.
abbrev pub con_espera : Suse ℕ
con_espera = con_cola impresora (un_hilo 7 3 1 ∷ un_hilo 7 4 2 ∷ []) con_listos

siguiente_a_ejecutar-Minima_example :
    Garantiza (Minima numeros 7) (siguiente_a_ejecutar numeros ordenar_lista 7 con_listos)
unfolding lookup insert programa_nuevo iniciar_suse
siguiente_a_ejecutar-Minima_example =
    siguiente_a_ejecutar-Minima numeros numeros-IsReales ordenar_lista por_insercion-IsOrdenar 7
      (record (programa_nuevo 7) { cantidad_de_hilos_en_ready = pos 2 })
      (un_hilo 7 1 5 ∷ un_hilo 7 2 3 ∷ []) con_listos refl refl

-- The program 7 waits for a thread: it is blocked, and holds its mutex.
abbrev dormido : Programa ℕ
dormido = record (programa_nuevo 7) { esta_bloqueado = true; mutex_tomado = true }

abbrev con_dormido : Suse ℕ
con_dormido = con_programa 7 dormido (con_ready 7 [] con_espera)

sem_suse_signal-Entrega_example :
    Garantiza
      (Entrega impresora (un_hilo 7 3 1) dormido [] (un_hilo 7 4 2 ∷ []) con_dormido)
      (sem_suse_signal 8 impresora con_dormido)
unfolding lookup insert programa_nuevo iniciar_suse semaforos_de colas_de inc hilo_nuevo
sem_suse_signal-Entrega_example =
    sem_suse_signal-Entrega 8 impresora (un_hilo 7 3 1) (un_hilo 7 4 2 ∷ []) [] dormido
      (record (programa_nuevo 8) { exec = some (un_hilo 8 1 4) })
      (record { valor_actual = pos 0; valor_maximo = pos 3 }) con_dormido refl refl refl refl refl
      refl

tomar_metricas-Conserva_example : Conserva con_espera (tomar_metricas con_espera)
tomar_metricas-Conserva_example = tomar_metricas-Conserva con_espera

-- The threads that are counted.
abbrev todos : ℕ → ℕ → Bool
todos pid tid = true

siguiente_a_ejecutar-hilos_example :
    Logra
      (λ r. hilos todos (estado_de r) ≡ hilos todos con_listos)
      (siguiente_a_ejecutar numeros ordenar_lista 7 con_listos)
siguiente_a_ejecutar-hilos_example =
    siguiente_a_ejecutar-hilos todos numeros ordenar_lista por_insercion-IsOrdenar 7 con_listos

sem_suse_wait-hilos_example :
    Logra (λ t. hilos todos t ≡ hilos todos con_listos) (sem_suse_wait 8 1 impresora con_listos)
sem_suse_wait-hilos_example = sem_suse_wait-hilos todos 8 1 impresora con_listos

reachable-hilos_example : hilos todos admitido ≤ creados todos corrida
reachable-hilos_example =
    reachable-hilos todos numeros ordenar_lista por_insercion-IsOrdenar configuracion 2 diez corrida
