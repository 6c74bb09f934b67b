-- ===== src/Suse/Tests/Semaphores.antt =====
-- Threads that wait for a semaphore of SUSE.c, and signals that wake them.
use linuse_tp_os.Base.{
  ℕ, refl, sym, ap, false, none, some, [], ◌∷◌, arith, ◌==◌, if◌then◌else◌, clave_nombre,
  clave_numero, pos, inc, dec, Resultado, ok, fallo, Garantiza, All, lookup, insert, erase,
}
use linuse_tp_os.Suse.Model.{Hilo, Suse}
use linuse_tp_os.Suse.Program.{iniciar_suse, programa_nuevo, crear_programa}
use linuse_tp_os.Suse.Ready.{
  hilo_nuevo, crear_hilo, pasar_a_ready, tomar_con, tomar_nuevo, admitir_con, admitir,
}
use linuse_tp_os.Suse.Steps.{crea, toma, admite, elige, espera_sem, Alcanza, sigue}
use linuse_tp_os.Suse.Invariant.{espera_respuesta}
use linuse_tp_os.Suse.Schedule.{Eleccion, siguiente_a_ejecutar}
use linuse_tp_os.Suse.Tests.Sort.{por_insercion}
use linuse_tp_os.Suse.Invariant.Choice.{PuedePedir, estado_de}
use linuse_tp_os.Suse.Steps.Values.{IsValido, reachable-Medidos, reachable-Despierta}
use linuse_tp_os.Suse.Semaphore.Waiters.{Medidos}
use linuse_tp_os.Suse.Semaphore.Wakeup.{Despierta, avisos}
use linuse_tp_os.Suse.Semaphore.{sem_suse_wait}
use linuse_tp_os.Suse.Tests.Runs.{
  numeros, ordenar_lista, tras, impresora, configuracion, diez, inicio, admitido, corrida, un_hilo,
}

abbrev tras_elegir : Suse ℕ → Resultado (Eleccion ℕ) → Suse ℕ
tras_elegir s (ok r) = estado_de r
tras_elegir s (fallo _) = s

configuracion-IsValido : All IsValido configuracion
configuracion-IsValido = ((omega arith, omega arith), tt)

abbrev esperando : Suse ℕ
esperando = tras admitido (sem_suse_wait 7 1 impresora admitido)

abbrev con_otro : Suse ℕ
con_otro = tras esperando (crear_hilo numeros 7 2 esperando)

abbrev otro_tomado : Suse ℕ
otro_tomado = tras con_otro (tomar_nuevo con_otro)

abbrev otro_admitido : Suse ℕ
otro_admitido = tras otro_tomado (admitir otro_tomado)

abbrev ejecutando : Suse ℕ
ejecutando = tras_elegir otro_admitido (siguiente_a_ejecutar numeros ordenar_lista 7 otro_admitido)

abbrev dos_esperando : Suse ℕ
dos_esperando = tras ejecutando (sem_suse_wait 7 2 impresora ejecutando)

otro_admitido-PuedePedir : PuedePedir 7 otro_admitido
unfolding iniciar_suse crear_programa programa_nuevo crear_hilo tomar_nuevo tomar_con admitir
    admitir_con pasar_a_ready lookup insert erase inc dec hilo_nuevo sem_suse_wait
otro_admitido-PuedePedir p e =
    ap (λ o. elim o [ none ↦ false | some r ↦ espera_respuesta r ]) (sym e)

-- The thread waits for the semaphore, whose value is 0; another is created, executes, and waits behind it.
abbrev corrida_con_espera : Alcanza numeros ordenar_lista inicio dos_esperando
unfolding iniciar_suse crear_programa crear_hilo tomar_nuevo tomar_con admitir admitir_con
    pasar_a_ready lookup insert erase siguiente_a_ejecutar sem_suse_wait por_insercion
corrida_con_espera =
    let a = sigue corrida (espera_sem 7 1 impresora refl) in
    let b = sigue (sigue (sigue a (crea 7 2 refl)) (toma refl refl)) (admite refl) in
    sigue (sigue b (elige 7 otro_admitido-PuedePedir refl)) (espera_sem 7 2 impresora refl)

reachable-Medidos_example : Medidos dos_esperando
reachable-Medidos_example =
    reachable-Medidos numeros ordenar_lista configuracion 2 diez configuracion-IsValido
      corrida_con_espera

-- The threads that wait for the semaphore.
abbrev espera_de : ℕ → Hilo ℕ
espera_de i = elim (lookup impresora dos_esperando.blocked_por_semaforo) [
  | some (h ∷ k ∷ r) ↦ if i == 0 then h else k
  | some (h ∷ []) ↦ h
  | some [] ↦ un_hilo 0 0 0
  | none ↦ un_hilo 0 0 0
]

reachable-Despierta_example :
    Garantiza (Despierta (espera_de 1)) (avisos (7 ∷ 7 ∷ []) impresora dos_esperando)
unfolding iniciar_suse crear_programa crear_hilo tomar_nuevo tomar_con admitir admitir_con
    pasar_a_ready lookup insert erase siguiente_a_ejecutar sem_suse_wait por_insercion
reachable-Despierta_example =
    reachable-Despierta numeros ordenar_lista configuracion 2 diez configuracion-IsValido
      corrida_con_espera (7 ∷ 7 ∷ []) impresora (espera_de 1) (espera_de 0 ∷ []) []
      (record { valor_actual = pos 0; valor_maximo = pos 3 }) refl (omega arith) refl refl
      (((_, refl), (_, refl)), tt) ((_, refl), (_, refl))
      (((_, refl), (_, refl)), (((_, refl), (_, refl)), tt))
