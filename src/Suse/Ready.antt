-- ===== src/Suse/Ready.antt =====
-- From New to Ready: `crearHilo`, `planificarReady` and `pasarAReady` of SUSE.c.
use linuse_tp_os.Base.{
  ℕ, zero, suc, ◌+◌, Option, none, some, List, [], ◌∷◌, ◌++◌, clave_nombre, clave_numero, inc, dec,
  puntero_nulo, espera, Resultado, ok, fallo, ◌>>=◌, lookup,
}
use linuse_tp_os.Suse.Model.{
  Reales, Hilo, Suse, a_int, get_microtime, leido, programa_de, con_programa, con_ready,
}

module _ {E : Type 0} where
  -- The thread that `crearHilo` allocates.
  unfoldable pub hilo_nuevo : Reales E → ℕ → ℕ → ℕ → Hilo E
  unfolding a_int
  hilo_nuevo R pid tid ahora = record {
    pid = pid;
    tid = tid;
    estimacion = R.cero;
    rafaga = 0;
    tiempo_de_ejecucion = 0;
    timestamp_creacion = a_int ahora;
    suma_de_intervalos_en_ready = 0;
    suma_de_intervalos_en_exec = 0;
    timestamp_exec = 0;
    timestamp_ready = 0;
  }

  -- `crearHilo`, with the `tid` that it reads from the socket `pid`.
  unfoldable pub crear_hilo : Reales E → ℕ → ℕ → Suse E → Resultado (Suse E)
  unfolding hilo_nuevo
  crear_hilo R pid tid s = do
    let h = hilo_nuevo R pid tid (get_microtime s)
    let s' = record (leido s) { new = s.new ++ h ∷ []; hay_nuevos = s.hay_nuevos + 1 }
    p ← programa_de pid s'
    ok (
        con_programa pid (record p { cantidad_de_hilos_en_new = inc p.cantidad_de_hilos_en_new })
          s')

  -- `pasarAReady`: the first thread of a program goes straight to Execute.
  unfoldable pub pasar_a_ready : Hilo E → Suse E → Resultado (Suse E)
  pasar_a_ready h s = elim (lookup h.pid s.ready) [
    | none ↦ do
      p ← programa_de h.pid s
      ok (con_programa h.pid (record p { exec = some h }) (con_ready h.pid [] s))
    | some l ↦ do
      let h' = record h { timestamp_ready = get_microtime s }
      p ← programa_de h.pid s
      ok (
          con_programa h.pid
            (record p { cantidad_de_hilos_en_ready = inc p.cantidad_de_hilos_en_ready })
            (con_ready h.pid (l ++ h' ∷ []) (leido s)))
  ]

  -- The first half of a round of `planificarReady`, by the value of `hayNuevos` and the queue: it waits
  -- for a post and pops a thread. The queue has a thread for each post.
  unfoldable pub tomar_con : ℕ → List (Hilo E) → Suse E → Resultado (Suse E)
  tomar_con zero l s = fallo espera
  tomar_con (suc n) [] s = fallo puntero_nulo
  tomar_con (suc n) (h ∷ r) s = ok (record s { hay_nuevos = n; new = r; en_mano = some h })

  unfoldable pub tomar_nuevo : Suse E → Resultado (Suse E)
  unfolding tomar_con
  tomar_nuevo s = tomar_con s.hay_nuevos s.new s

  -- The second half, by the value of `MAXIMOPROCESAMIENTO`: it waits for a post and admits the thread.
  unfoldable pub admitir_con : ℕ → Option (Hilo E) → Suse E → Resultado (Suse E)
  admitir_con zero o s = fallo espera
  admitir_con (suc n) none s = fallo puntero_nulo
  admitir_con (suc n) (some h) s = do
    p ← programa_de h.pid s
    pasar_a_ready h (
        con_programa h.pid (record p { cantidad_de_hilos_en_new = dec p.cantidad_de_hilos_en_new })
          (record s { maximo_procesamiento = n; en_mano = none }))

  unfoldable pub admitir : Suse E → Resultado (Suse E)
  unfolding admitir_con
  admitir s = admitir_con s.maximo_procesamiento s.en_mano s
