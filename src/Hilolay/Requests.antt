-- ===== src/Hilolay/Requests.antt =====
-- The operations of the library over a socket (Planificador/Hilolay/hilolay/implementaciones.c): what
-- each sends, and the planner that takes it and answers.
use linuse_tp_os.Base.{ℕ, List, [], ◌∷◌, ◌++◌, Resultado, ok, ◌>>=◌, length}
use linuse_tp_os.Wire.{int_de, leer_int}
use linuse_tp_os.Hilolay.{HilolayOperations}
use linuse_tp_os.Suse.Model.{Reales, Suse}
use linuse_tp_os.Suse.Schedule.{Ordenar}
use linuse_tp_os.Suse.Requests.{
  Peticion, suse_create, suse_schedule_next, suse_wait, suse_signal, suse_join, suse_close,
  desconocida,
}
use linuse_tp_os.Suse.Decoding.{turno}

-- The thread and the name of a semaphore, with its final zero, which its length does not count.
unfoldable pub semaforo_de : ℕ → List ℕ → List ℕ
semaforo_de tid sem_id = int_de tid ++ (int_de (length sem_id) ++ (sem_id ++ (0 ∷ [])))

-- The buffer that each operation sends. No operation sends any other request.
unfoldable pub enviado : Peticion → List ℕ
unfolding semaforo_de
enviado (suse_create tid) = int_de 1 ++ int_de tid
enviado suse_schedule_next = int_de 2
enviado (suse_wait tid sem_id) = int_de 3 ++ semaforo_de tid sem_id
enviado (suse_signal tid sem_id) = int_de 4 ++ semaforo_de tid sem_id
enviado (suse_join tid) = int_de 5 ++ int_de tid
enviado (suse_close tid) = int_de 6 ++ int_de tid
enviado (desconocida n) = []

module _ {E : Type 0} (R : Reales E) (ordenar : Ordenar E) (sd : ℕ) where
  -- A request is sent, and the planner takes its turn for the socket.
  unfoldable pub enviar : Peticion → Suse E → Resultado (Suse E × List ℕ)
  unfolding enviado
  enviar p s = do (t, (envio, resto)) ← turno R ordenar sd (enviado p) s; ok (t, envio)

  abbrev pub sin_leer : Resultado (Suse E × List ℕ) → Resultado (Suse E)
  sin_leer m = do (t, envio) ← m; ok t

  -- `hiloops`, with `recv` of the thread that is to run.
  unfoldable pub hiloops : HilolayOperations (Suse E)
  unfolding enviar
  hiloops = record {
    suse_create = λ tid s. sin_leer (enviar (suse_create tid) s);
    suse_schedule_next = λ s. (do
      (t, envio) ← enviar suse_schedule_next s
      (tid, resto) ← leer_int envio
      ok (t, tid));
    suse_join = λ tid s. sin_leer (enviar (suse_join tid) s);
    suse_close = λ tid s. sin_leer (enviar (suse_close tid) s);
    suse_wait = λ tid sem_id s. sin_leer (enviar (suse_wait tid sem_id) s);
    suse_signal = λ tid sem_id s. sin_leer (enviar (suse_signal tid sem_id) s);
  }
