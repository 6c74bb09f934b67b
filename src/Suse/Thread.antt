-- ===== src/Suse/Thread.antt =====
-- Threads that wait for one another and end: `realizarJoin`, `realizarClose`, `pasarAExit`,
-- `ponerEnBlockedPorHilo` and `liberarBloqueadosPorElHilo` of SUSE.c.
use linuse_tp_os.Base.{
  ℕ, ◌+◌, Bool, false, ◌||◌, Option, none, some, List, [], ◌∷◌, ◌++◌, ◌==◌, if◌then◌else◌,
  clave_nombre, clave_numero, inc, dec, Resultado, ok, ◌>>=◌, desref, any, Dict, lookup, insert,
}
use linuse_tp_os.Suse.Model.{
  Hilo, Programa, Suse, get_microtime, leido, programa_de, ready_de, con_programa, con_ready,
}
use linuse_tp_os.Suse.Metrics.{tomar_metricas}

module _ {E : Type 0} where
  -- `estaEnExit` and `tieneBloqueadoAlHilo`: the list has a thread of that number.
  abbrev pub tiene_tid : ℕ → List (Hilo E) → Bool
  tiene_tid tid = any (λ h. h.tid == tid)

  -- `dictionary_algunoCumple` over lists of threads.
  unfoldable pub alguna_tiene : ℕ → Dict ℕ (List (Hilo E)) → Bool
  alguna_tiene tid [] = false
  alguna_tiene tid ((k, l) ∷ d) = tiene_tid tid l || alguna_tiene tid d

  -- `terminoElHilo` looks into the Exit lists of every program.
  unfoldable pub termino_el_hilo : ℕ → Suse E → Bool
  unfolding alguna_tiene
  termino_el_hilo tid s = alguna_tiene tid s.exit

  unfoldable pub bloqueado_por_algun_hilo : Hilo E → Programa E → Bool
  unfolding alguna_tiene
  bloqueado_por_algun_hilo h p = alguna_tiene h.tid p.blocked

  -- The list at a key, or a new one.
  abbrev pub lista_de : ℕ → Dict ℕ (List (Hilo E)) → List (Hilo E)
  lista_de k d = elim (lookup k d) [ none ↦ [] | some l ↦ l ]

  -- `ponerEnBlockedPorHilo`, and the thread leaves execution.
  unfoldable pub poner_en_blocked_por_hilo : Hilo E → ℕ → Programa E → Programa E
  unfolding bloqueado_por_algun_hilo
  poner_en_blocked_por_hilo h tid p = record p {
    exec = none;
    blocked = insert tid (lista_de tid p.blocked ++ h ∷ []) p.blocked;
    cantidad_de_hilos_en_blocked =
        if bloqueado_por_algun_hilo h p
        then p.cantidad_de_hilos_en_blocked
        else inc p.cantidad_de_hilos_en_blocked;
  }

  unfoldable pub join_exec : ℕ → ℕ → Programa E → Option (Hilo E) → Suse E → Suse E
  join_exec pid tid p none s = s
  join_exec pid tid p (some h) s =
      if termino_el_hilo tid s then s else con_programa pid (poner_en_blocked_por_hilo h tid p) s

  -- `realizarJoin`: ignored where no thread executes, or where one of that number has ended.
  unfoldable pub realizar_join : ℕ → ℕ → Suse E → Suse E
  unfolding join_exec termino_el_hilo poner_en_blocked_por_hilo
  realizar_join pid tid s = elim (lookup pid s.programas) [
    | none ↦ s
    | some p ↦ join_exec pid tid p p.exec s
  ]

  -- A joiner that nothing else blocks goes to the end of Ready.
  unfoldable pub liberar_hilo : Hilo E → Suse E → Resultado (Suse E)
  unfolding bloqueado_por_algun_hilo
  liberar_hilo h s = do
    p ← programa_de h.pid s
    if bloqueado_por_algun_hilo h p then ok s else (do
      l ← ready_de h.pid s
      let h' = record h { timestamp_ready = get_microtime s }
      let p' = record p {
        cantidad_de_hilos_en_blocked = dec p.cantidad_de_hilos_en_blocked;
        cantidad_de_hilos_en_ready = inc p.cantidad_de_hilos_en_ready;
      }
      ok (con_programa h.pid p' (con_ready h.pid (l ++ h' ∷ []) (leido s))))

  -- The loop of `liberarBloqueadosPorElHilo` over the list of those that wait for `tid`.
  unfoldable pub liberar_lista : ℕ → ℕ → List (Hilo E) → Suse E → Resultado (Suse E)
  unfolding liberar_hilo
  liberar_lista pid tid [] s = ok s
  liberar_lista pid tid (h ∷ resto) s = do
    p ← programa_de pid s
    s' ← liberar_hilo h (con_programa pid (record p { blocked = insert tid resto p.blocked }) s)
    liberar_lista pid tid resto s'

  unfoldable pub liberar_bloqueados_por_el_hilo : ℕ → ℕ → Suse E → Resultado (Suse E)
  unfolding liberar_lista
  liberar_bloqueados_por_el_hilo pid tid s = do
    p ← programa_de pid s
    liberar_lista pid tid (lista_de tid p.blocked) s

  -- `pasarAExit` of the executing thread. The object is in the Exit list and in `exec` while the
  -- metrics run, which do not read Exit: it is added here as they leave it.
  unfoldable pub pasar_a_exit : ℕ → Suse E → Resultado (Suse E)
  unfolding tomar_metricas
  pasar_a_exit pid s = do
    s' ← tomar_metricas s
    p ← programa_de pid s'
    h ← desref p.exec
    ok (record s' {
      exit = insert h.pid (lista_de h.pid s'.exit ++ h ∷ []) s'.exit;
      maximo_procesamiento = s'.maximo_procesamiento + 1;
    })

  unfoldable pub sacar_de_exec : ℕ → Suse E → Resultado (Suse E)
  sacar_de_exec pid s = do p ← programa_de pid s; ok (con_programa pid (record p { exec = none }) s)

  -- `realizarClose`: a thread that is not executing is left alone.
  unfoldable pub realizar_close : ℕ → ℕ → Suse E → Resultado (Suse E)
  unfolding pasar_a_exit sacar_de_exec liberar_bloqueados_por_el_hilo
  realizar_close pid tid s = do
    p ← programa_de pid s
    h ← desref p.exec
    if h.tid == tid
        then (do
          s1 ← pasar_a_exit pid s
          s2 ← sacar_de_exec pid s1
          liberar_bloqueados_por_el_hilo h.pid h.tid s2)
        else ok s
