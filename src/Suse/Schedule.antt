-- ===== src/Suse/Schedule.antt =====
-- The choice of the next thread to execute: `recalcularEstimacion`, `replanificarHilos`,
-- `calcularSiguienteHilo` and `siguienteAEjecutar` of SUSE.c.
pub mod Minimal
use linuse_tp_os.Base.{
  ℕ, ◌+◌, Bool, true, Option, none, some, List, [], ◌∷◌, ◌++◌, if◌then◌else◌, clave_nombre,
  clave_numero, dec, puntero_nulo, espera, Resultado, ok, fallo, ◌>>=◌,
}
use linuse_tp_os.Suse.Model.{
  Reales, Hilo, Programa, Suse, a_int, transcurrido, get_microtime, leido, programa_de, ready_de,
  con_programa, con_ready,
}

-- What `schedule_next` answers: a thread, or nothing yet, for the program waits on its mutex.
pub data Eleccion (E : Type 0) : Type 0 where
  elegido : ℕ → Suse E → Eleccion E
  bloqueado : Suse E → Eleccion E

-- `list_sort` of the commons library: it is given the comparison and sorts in place.
abbrev pub Ordenar : Type 0 → Type 0
Ordenar E = (Hilo E → Hilo E → Bool) → List (Hilo E) → List (Hilo E)

-- (int) (now - then), and an `int` sum.
unfoldable pub lapso : ℕ → ℕ → ℕ
unfolding a_int transcurrido
lapso ahora antes = a_int (transcurrido ahora antes)

unfoldable pub sumar : ℕ → ℕ → ℕ
unfolding a_int
sumar a b = a_int (a + b)

module _ {E : Type 0} where
  -- The bookkeeping of a thread that leaves or enters execution at the times read.
  unfoldable pub sale_de_exec : ℕ → ℕ → Hilo E → Hilo E
  unfolding lapso sumar
  sale_de_exec t1 t2 h = record h {
    suma_de_intervalos_en_exec = sumar h.suma_de_intervalos_en_exec (lapso t1 h.timestamp_exec);
    timestamp_ready = t2;
  }

  unfoldable pub sigue_en_exec : ℕ → ℕ → Hilo E → Hilo E
  unfolding lapso sumar
  sigue_en_exec t1 t2 h = record h {
    suma_de_intervalos_en_exec = sumar h.suma_de_intervalos_en_exec (lapso t1 h.timestamp_exec);
    timestamp_exec = t2;
  }

  unfoldable pub entra_a_exec : ℕ → ℕ → Hilo E → Hilo E
  unfolding lapso sumar
  entra_a_exec t1 t2 h = record h {
    suma_de_intervalos_en_ready = sumar h.suma_de_intervalos_en_ready (lapso t1 h.timestamp_ready);
    timestamp_exec = t2;
  }

  -- The end of `calcularSiguienteHilo`, where no thread was executing: the candidate enters.
  unfoldable pub poner_en_exec : ℕ → Hilo E → List (Hilo E) → Programa E → Suse E → Suse E
  unfolding entra_a_exec
  poner_en_exec pid h resto p s =
      con_programa pid
        (record p {
          exec = some (entra_a_exec (s.reloj (s.lecturas + 1)) (s.reloj (s.lecturas + 2)) h);
          cantidad_de_hilos_en_ready = dec p.cantidad_de_hilos_en_ready;
        })
        (con_ready pid resto
          (record s { inicio_rafaga = get_microtime s; lecturas = s.lecturas + 3 }))

  -- The head of Ready preempts the executing thread `e`, which goes to the end of the list.
  unfoldable pub desalojar : ℕ → Hilo E → Hilo E → List (Hilo E) → Programa E → Suse E → Suse E
  unfolding sale_de_exec entra_a_exec
  desalojar pid e h resto p s =
      let t = λ (i : ℕ). s.reloj (s.lecturas + i) in
      con_programa pid (record p { exec = some (entra_a_exec (t 3) (t 4) h) })
        (con_ready pid (resto ++ sale_de_exec (t 1) (t 2) e ∷ [])
          (record s { inicio_rafaga = get_microtime s; lecturas = s.lecturas + 5 }))

  -- The executing thread goes on.
  unfoldable pub continuar : ℕ → Hilo E → Programa E → Suse E → Suse E
  unfolding sigue_en_exec
  continuar pid e p s =
      con_programa pid
        (record p { exec = some (sigue_en_exec (get_microtime s) (s.reloj (s.lecturas + 1)) e) })
        (record s { lecturas = s.lecturas + 2 })

module _ {E : Type 0} (R : Reales E) where
  -- `recalcularEstimacion` with `actualizarEstimacion`: nothing where the program does not exist or
  -- no thread is executing.
  unfoldable pub actualizar_estimacion : Hilo E → Hilo E
  actualizar_estimacion h = record h { estimacion = R.mezclar h.estimacion h.rafaga }

  unfoldable pub recalcular_exec : ℕ → Programa E → Option (Hilo E) → Suse E → Suse E
  unfolding actualizar_estimacion lapso
  recalcular_exec pid p none s = s
  recalcular_exec pid p (some h) s =
      let h' = record h { rafaga = lapso (get_microtime s) s.inicio_rafaga } in
      con_programa pid (record p { exec = some (actualizar_estimacion h') }) (leido s)

  unfoldable pub recalcular_estimacion : ℕ → Suse E → Suse E
  unfolding recalcular_exec
  recalcular_estimacion pid s = elim (programa_de pid s) [
    | fallo _ ↦ s
    | ok p ↦ recalcular_exec pid p p.exec s
  ]

  unfoldable pub tiene_menor_estimacion : Hilo E → Hilo E → Bool
  tiene_menor_estimacion h o = R.menor_o_igual h.estimacion o.estimacion

  unfoldable pub replanificar_hilos : Ordenar E → ℕ → Suse E → Resultado (Suse E)
  unfolding tiene_menor_estimacion
  replanificar_hilos ordenar pid s = do
    l ← ready_de pid s
    ok (con_ready pid (ordenar tiene_menor_estimacion l) s)

  -- `calcularSiguienteHilo`, by the executing thread and the Ready list.
  unfoldable pub elegir : ℕ → Option (Hilo E) → List (Hilo E) → Programa E → Suse E → Eleccion E
  unfolding desalojar continuar poner_en_exec
  elegir pid (some e) [] p s = elegido e.tid (continuar pid e p s)
  elegir pid (some e) (h ∷ resto) p s =
      if R.menor h.estimacion e.estimacion
      then elegido h.tid (desalojar pid e h resto p s)
      else elegido e.tid (continuar pid e p s)
  elegir pid none [] p s = bloqueado (con_programa pid (record p { esta_bloqueado = true }) s)
  elegir pid none (h ∷ resto) p s = elegido h.tid (poner_en_exec pid h resto p s)

  unfoldable pub calcular_siguiente_hilo : ℕ → Suse E → Resultado (Eleccion E)
  unfolding elegir
  calcular_siguiente_hilo pid s = do
    l ← ready_de pid s
    p ← programa_de pid s
    ok (elegir pid p.exec l p s)

  -- `siguienteAEjecutar`, up to its answer or to the wait on the program's mutex. It is one step,
  -- although the code releases its semaphores between the three parts.
  unfoldable pub siguiente_a_ejecutar : Ordenar E → ℕ → Suse E → Resultado (Eleccion E)
  unfolding recalcular_estimacion replanificar_hilos calcular_siguiente_hilo
  siguiente_a_ejecutar ordenar pid s = do
    s' ← replanificar_hilos ordenar pid (recalcular_estimacion pid s)
    calcular_siguiente_hilo pid s'

module _ {E : Type 0} where
  -- What follows `pthread_mutex_lock` in `calcularSiguienteHilo`. `list_remove` of an empty list is
  -- NULL, and the candidate is dereferenced.
  unfoldable pub sacar_candidato : ℕ → List (Hilo E) → Programa E → Suse E → Resultado (Suse E × ℕ)
  unfolding poner_en_exec
  sacar_candidato pid [] p s = fallo puntero_nulo
  sacar_candidato pid (h ∷ resto) p s = ok (poner_en_exec pid h resto p s, h.tid)

  unfoldable pub despertar : ℕ → Suse E → Resultado (Suse E × ℕ)
  unfolding sacar_candidato
  despertar pid s = do
    p ← programa_de pid s
    l ← ready_de pid s
    if p.mutex_tomado
        then fallo espera
        else sacar_candidato pid l (record p { mutex_tomado = true }) s
