-- ===== src/Muse/Connection.antt =====
-- The requests of MUSE: `iniciar_conexion` for a socket that has something to read, and the
-- `atenderMuse` functions of Memoria/utils.c, over the operations of Memoria/muse.c as an interface.
use linuse_tp_os.Base.{
  ℕ, Option, none, some, List, [], ◌∷◌, ◌++◌, ◌==◌, if◌then◌else◌, ℤ, pos, puntero_nulo, Resultado,
  ok, fallo, ◌>>=◌,
}
use linuse_tp_os.Wire.{
  int_de, leer_int, leer_campo, como_numero, leer_campo_int, campo_int, campo_signo, Atencion,
}

-- The operations that the requests call, on a state `S`; the last number is the client. `museget`
-- gives the bytes at the pointer that it answers, none for NULL.
pub record OperacionesMuse (S : Type 0) : Type 0 where
  pub museinit : ℕ → S → Resultado S
  pub museclose : ℕ → S → Resultado S
  pub musemalloc : ℕ → ℕ → S → Resultado (S × ℕ)
  pub musefree : ℕ → ℕ → S → Resultado (S × ℤ)
  pub museget : List ℕ → ℕ → ℕ → ℕ → S → Resultado (S × Option (List ℕ))
  pub musecpy : ℕ → List ℕ → ℕ → ℕ → S → Resultado (S × ℤ)

-- What `museget` answered, which is copied without a look at NULL.
-- `memcpy` from NULL is undefined, also for no bytes: it fails here for every size.
unfoldable pub copiar_respuesta : Option (List ℕ) → Resultado (List ℕ)
copiar_respuesta none = fallo puntero_nulo
copiar_respuesta (some bytes) = ok bytes

module _ {S : Type 0} (ops : OperacionesMuse S) (cliente : ℕ) where
  unfoldable pub atender_muse_init : List ℕ → S → Atencion S
  atender_muse_init e s = do t ← ops.museinit cliente s; ok (t, ([], e))

  unfoldable pub atender_muse_close : List ℕ → S → Atencion S
  atender_muse_close e s = do t ← ops.museclose cliente s; ok (t, ([], e))

  unfoldable pub atender_muse_alloc : List ℕ → S → Atencion S
  atender_muse_alloc e s = do
    (bytes_a_reservar, r) ← leer_campo_int e
    (t, direccion) ← ops.musemalloc bytes_a_reservar cliente s
    ok (t, (campo_int direccion, r))

  -- The size that comes first is not used, and nothing is sent back.
  unfoldable pub atender_muse_free : List ℕ → S → Atencion S
  atender_muse_free e s = do
    (tamanio_direccion, e1) ← leer_int e
    (direccion_de_memoria, r) ← leer_int e1
    (t, resultado) ← ops.musefree cliente direccion_de_memoria s
    ok (t, ([], r))

  -- The size that goes before the bytes is that of an `int`, however many they are.
  unfoldable pub atender_muse_get : List ℕ → S → Atencion S
  unfolding copiar_respuesta
  atender_muse_get e s = do
    (dst, e1) ← leer_campo e
    (src, e2) ← leer_campo_int e1
    (n, r) ← leer_campo_int e2
    (t, respuesta) ← ops.museget dst src n cliente s
    bytes ← copiar_respuesta respuesta
    ok (t, (campo_signo (pos 0) ++ (int_de 4 ++ bytes), r))

  -- The first four bytes to copy are read as an `int`.
  unfoldable pub atender_muse_copy : List ℕ → S → Atencion S
  atender_muse_copy e s = do
    (dst, e1) ← leer_campo_int e
    (src, e2) ← leer_campo e1
    (n, r) ← leer_campo_int e2
    z ← como_numero 4 src
    (t, resultado) ← ops.musecpy dst src n cliente s
    ok (t, (campo_signo resultado, r))

  -- Nothing is mapped, and the answer is 2 ^ 32 - 1.
  unfoldable pub atender_muse_map : List ℕ → S → Atencion S
  atender_muse_map e s = do
    (dst, e1) ← leer_campo e
    (longitud, e2) ← leer_campo_int e1
    (flags, r) ← leer_campo_int e2
    ok (s, (campo_int 4294967295, r))

  unfoldable pub atender_muse_sync : List ℕ → S → Atencion S
  atender_muse_sync e s = do
    (addr, e1) ← leer_campo_int e
    (len, r) ← leer_campo_int e1
    ok (s, (campo_signo (pos 0), r))

  unfoldable pub atender_muse_unmap : List ℕ → S → Atencion S
  atender_muse_unmap e s = do (dir, r) ← leer_campo_int e; ok (s, (campo_signo (pos 0), r))

  unfoldable pub despachar_muse : ℕ → List ℕ → S → Atencion S
  unfolding atender_muse_init atender_muse_close atender_muse_alloc atender_muse_free
      atender_muse_get atender_muse_copy atender_muse_map atender_muse_sync atender_muse_unmap
  despachar_muse operacion e s =
      if operacion == 1
      then atender_muse_init e s
      else if operacion == 2
      then atender_muse_close e s
      else if operacion == 3
      then atender_muse_alloc e s
      else if operacion == 4
      then atender_muse_free e s
      else if operacion == 5
      then atender_muse_get e s
      else if operacion == 6
      then atender_muse_copy e s
      else if operacion == 7
      then atender_muse_map e s
      else if operacion == 8
      then atender_muse_sync e s
      else if operacion == 9
      then atender_muse_unmap e s
      else ok (s, ([], e))

  -- A turn of the loop for the socket. A socket with nothing to read was closed: MUSE is not told.
  unfoldable pub turno_muse : List ℕ → S → Atencion S
  unfolding despachar_muse
  turno_muse [] s = ok (s, ([], []))
  turno_muse (b ∷ bs) s = do
    (tamanio_operacion, e) ← leer_int (b ∷ bs)
    (operacion, e1) ← leer_int e
    despachar_muse operacion e1 s
