-- ===== src/Suse/Decoding.antt =====
-- What the planner takes from the socket of a program, and sends back: `iniciarConexion` for a socket
-- that has something to read, with the `read`s of the handlers and the `send` of `atenderScheduleNext` (SUSE.c).
use linuse_tp_os.Base.{
  ℕ, ◌+◌, ◌-◌, ◌^◌, Option, none, some, List, [], ◌∷◌, ltb, ◌==◌, if◌then◌else◌, fuera_de_rango,
  indeterminado, Resultado, ok, fallo, ◌>>=◌,
}
use linuse_tp_os.Wire.{int_de, leer, leer_int}
use linuse_tp_os.Suse.Model.{Reales, Suse}
use linuse_tp_os.Suse.Schedule.{Ordenar}
use linuse_tp_os.Suse.Program.{desconectar}
use linuse_tp_os.Suse.Requests.{
  Peticion, suse_create, suse_schedule_next, suse_wait, suse_signal, suse_join, suse_close,
  desconocida, atender,
}

-- The string at a pointer: the bytes before the first zero. Without one it goes on past the buffer.
unfoldable pub cadena : List ℕ → Resultado (List ℕ)
cadena [] = fallo indeterminado
cadena (b ∷ bs) = do let resto = cadena bs; if b == 0 then ok [] else (do cs ← resto; ok (b ∷ cs))

-- The thread and the name of a semaphore, in `atenderWait` and in `atenderSignal`.
unfoldable pub leer_semaforo : List ℕ → Resultado ((ℕ × List ℕ) × List ℕ)
unfolding cadena
leer_semaforo e = do
  (tid, e1) ← leer_int e
  (longitud, e2) ← leer_int e1
  (sem_id, e3) ←
      (if ltb longitud (2 ^ 31 - 1) then leer (longitud + 1) e2 else fallo fuera_de_rango)
  id ← cadena sem_id
  ok ((tid, id), e3)

unfoldable pub leer_argumentos : ℕ → List ℕ → Resultado (Peticion × List ℕ)
unfolding leer_semaforo
leer_argumentos n e =
    if n == 1
    then (do (tid, r) ← leer_int e; ok (suse_create tid, r))
    else if n == 2
    then ok (suse_schedule_next, e)
    else if n == 3
    then (do ((tid, id), r) ← leer_semaforo e; ok (suse_wait tid id, r))
    else if n == 4
    then (do ((tid, id), r) ← leer_semaforo e; ok (suse_signal tid id, r))
    else if n == 5
    then (do (tid, r) ← leer_int e; ok (suse_join tid, r))
    else if n == 6
    then (do (tid, r) ← leer_int e; ok (suse_close tid, r))
    else ok (desconocida n, e)

unfoldable pub leer_peticion : List ℕ → Resultado (Peticion × List ℕ)
unfolding leer_argumentos
leer_peticion e = do (operacion, r) ← leer_int e; leer_argumentos operacion r

-- What is sent back, which is nothing where there is no thread to answer.
unfoldable pub salida_de : Option ℕ → List ℕ
salida_de none = []
salida_de (some tid) = int_de tid

module _ {E : Type 0} (R : Reales E) (ordenar : Ordenar E) where
  -- A turn of the loop for the socket `sd`: the state, what is sent, and what is left to read. A socket
  -- with nothing to read was closed.
  unfoldable pub turno : ℕ → List ℕ → Suse E → Resultado (Suse E × (List ℕ × List ℕ))
  unfolding leer_peticion salida_de
  turno sd [] s = ok (desconectar sd s, ([], []))
  turno sd (b ∷ bs) s = do
    (p, r) ← leer_peticion (b ∷ bs)
    (t, tid) ← atender R ordenar sd p s
    ok (t, (salida_de tid, r))
