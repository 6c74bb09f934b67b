-- ===== src/Hilolay/Tests/Socket.antt =====
-- The requests of the library over SUSE, on concrete threads and a semaphore.
use linuse_tp_os.Base.{
  ◌≡◌, refl, [], ◌∷◌, ◌++◌, arith, clave_nombre, clave_numero, ok, lookup, insert,
}
use linuse_tp_os.Hilolay.Requests.{enviado, hiloops}
use linuse_tp_os.Hilolay.Delivery.{leer_peticion-enviado, directas, pedir, hiloops-directas}
use linuse_tp_os.Suse.Schedule.{siguiente_a_ejecutar}
use linuse_tp_os.Suse.Program.{iniciar_suse, programa_nuevo}
use linuse_tp_os.Suse.Ready.{hilo_nuevo}
use linuse_tp_os.Suse.Tests.Sort.{por_insercion}
use linuse_tp_os.Suse.Requests.{Peticion, suse_schedule_next, suse_wait}
use linuse_tp_os.Suse.Decoding.{leer_peticion}
use linuse_tp_os.Suse.Tests.Runs.{numeros, ordenar_lista, impresora, con_listos}

abbrev en_impresora : Peticion
en_impresora = suse_wait 3 impresora

leer_peticion-enviado_example :
    leer_peticion (enviado en_impresora ++ (2 ∷ 0 ∷ [])) ≡ ok (en_impresora, 2 ∷ 0 ∷ [])
leer_peticion-enviado_example =
    leer_peticion-enviado en_impresora (2 ∷ 0 ∷ [])
      (omega arith, ((refl, (refl, (refl, tt))), omega arith))

hiloops-directas_example :
    pedir numeros ordenar_lista 7 (hiloops numeros ordenar_lista 7) suse_schedule_next con_listos
    ≡ pedir numeros ordenar_lista 7 (directas numeros ordenar_lista 7) suse_schedule_next con_listos
unfolding siguiente_a_ejecutar lookup insert iniciar_suse programa_nuevo por_insercion hilo_nuevo
hiloops-directas_example =
    hiloops-directas numeros ordenar_lista 7 suse_schedule_next con_listos tt (omega arith)
