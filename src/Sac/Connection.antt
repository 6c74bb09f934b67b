-- ===== src/Sac/Connection.antt =====
-- The requests of the file server: `socketThread` and the `tomarPeticion` functions of
-- Sac-Server/conexionServer.c, over the operations of Sac-Server/operaciones.c as an interface.
use linuse_tp_os.Base.{
  ℕ, zero, suc, ◌^◌, List, [], ◌∷◌, ◌++◌, ltb, ◌==◌, if◌then◌else◌, ℤ, pos, negsuc, fuera_de_rango,
  Resultado, ok, fallo, ◌>>=◌, length,
}
use linuse_tp_os.Wire.{
  int_de, leer, leer_int, leer_campo, leer_campo_int, sin_signo, campo_signo, leer_campo_signo,
  Atencion,
}

-- The operations that the requests call, on a state `D`, each with the `int` that it returns. `o_read`
-- gives the `size` bytes of its buffer too; `o_readDir` and `o_getAttr` what they send themselves.
pub record Operaciones (D : Type 0) : Type 0 where
  pub o_create : List ℕ → D → Resultado (D × ℤ)
  pub o_open : List ℕ → D → Resultado (D × ℤ)
  pub o_read : List ℕ → ℕ → ℤ → D → Resultado (D × (ℤ × List ℕ))
  pub o_read_dir : List ℕ → D → Resultado (D × List ℕ)
  pub o_get_attr : List ℕ → D → Resultado (D × List ℕ)
  pub o_mkdir : List ℕ → D → Resultado (D × ℤ)
  pub o_unlink : List ℕ → D → Resultado (D × ℤ)
  pub o_rmdir : List ℕ → D → Resultado (D × ℤ)
  pub o_write : List ℕ → ℕ → ℤ → List ℕ → D → Resultado (D × ℤ)
  pub o_truncate : List ℕ → ℤ → D → Resultado (D × ℤ)
  pub o_rename : List ℕ → List ℕ → D → Resultado (D × ℤ)

-- The buffer of the answers that are one `int`, with its size first.
unfoldable pub respuesta_de : ℤ → List ℕ
respuesta_de z = campo_signo z

-- `string_substring_until` is of the commons library.
module _ (string_substring_until : List ℕ → ℕ → List ℕ) where
  -- A path: `malloc` and `read` of its bytes, and the string of as many.
  unfoldable pub leer_ruta : List ℕ → Resultado (List ℕ × List ℕ)
  leer_ruta e = do (path, r) ← leer_campo e; ok (string_substring_until path (length path), r)

  -- A size is what `malloc` and `memcpy` are given: a negative one is refused.
  unfoldable pub leer_tamanio : List ℕ → Resultado (ℕ × List ℕ)
  leer_tamanio e = do
    (size, r) ← leer_campo_int e
    if ltb size (2 ^ 31) then ok (size, r) else fallo fuera_de_rango

  module _ {D : Type 0} (ops : Operaciones D) where
    -- `tomarPeticionCreate`, `tomarPeticionMkdir`, `tomarPeticionUnlink` and `tomarPeticionRmdir`.
    unfoldable pub tomar_peticion : (List ℕ → D → Resultado (D × ℤ)) → List ℕ → D → Atencion D
    unfolding leer_ruta respuesta_de
    tomar_peticion op e d = do
      (path, r) ← leer_ruta e
      (d', respuesta) ← op path d
      ok (d', (respuesta_de respuesta, r))

    -- The path goes to `o_open` as it was read.
    unfoldable pub tomar_peticion_open : List ℕ → D → Atencion D
    unfolding respuesta_de
    tomar_peticion_open e d = do
      (path, r) ← leer_campo e
      (d', respuesta) ← ops.o_open path d
      ok (d', (respuesta_de respuesta, r))

    -- The answer of a read: 0 alone; or the count and `size` bytes, and after -1 a second answer.
    unfoldable pub envio_read : ℤ → List ℕ → List ℕ
    unfolding respuesta_de
    envio_read (pos zero) texto = int_de 0
    envio_read (pos (suc n)) texto = int_de (sin_signo (pos (suc n))) ++ texto
    envio_read (negsuc zero) texto =
        int_de (sin_signo (negsuc 0)) ++ (texto ++ respuesta_de (negsuc 0))
    envio_read (negsuc (suc n)) texto = int_de (sin_signo (negsuc (suc n))) ++ texto

    unfoldable pub tomar_peticion_read : List ℕ → D → Atencion D
    unfolding leer_ruta leer_tamanio envio_read
    tomar_peticion_read e d = do
      (path, e1) ← leer_ruta e
      (size, e2) ← leer_tamanio e1
      (offset, r) ← leer_campo_signo e2
      (d', (respuesta, texto)) ← ops.o_read path size offset d
      ok (d', (envio_read respuesta texto, r))

    -- `tomarPeticionReadDir` and `tomarPeticionGetAttr`.
    unfoldable pub tomar_peticion_que_envia :
        (List ℕ → D → Resultado (D × List ℕ)) → List ℕ → D → Atencion D
    unfolding leer_ruta
    tomar_peticion_que_envia op e d = do
      (path, r) ← leer_ruta e
      (d', envio) ← op path d
      ok (d', (envio, r))

    -- The length that goes before the bytes to write is not used: `size` bytes are read.
    unfoldable pub tomar_peticion_write : List ℕ → D → Atencion D
    unfolding leer_ruta leer_tamanio respuesta_de
    tomar_peticion_write e d = do
      (path, e1) ← leer_ruta e
      (size, e2) ← leer_tamanio e1
      (offset, e3) ← leer_campo_signo e2
      (tamanio_buf, e4) ← leer_int e3
      (buf, r) ← leer size e4
      (d', bytes) ← ops.o_write path size offset buf d
      ok (d', (respuesta_de bytes, r))

    unfoldable pub tomar_peticion_truncate : List ℕ → D → Atencion D
    unfolding leer_ruta respuesta_de
    tomar_peticion_truncate e d = do
      (path, e1) ← leer_ruta e
      (offset, r) ← leer_campo_signo e1
      (d', respuesta) ← ops.o_truncate path offset d
      ok (d', (respuesta_de respuesta, r))

    unfoldable pub tomar_peticion_rename : List ℕ → D → Atencion D
    unfolding leer_ruta respuesta_de
    tomar_peticion_rename e d = do
      (path1, e1) ← leer_ruta e
      (path2, r) ← leer_ruta e1
      (d', respuesta) ← ops.o_rename path1 path2 d
      ok (d', (respuesta_de respuesta, r))

    unfoldable pub despachar : ℕ → List ℕ → D → Atencion D
    unfolding tomar_peticion tomar_peticion_open tomar_peticion_read tomar_peticion_que_envia
        tomar_peticion_write tomar_peticion_truncate tomar_peticion_rename
    despachar operacion e d =
        if operacion == 1
        then tomar_peticion ops.o_create e d
        else if operacion == 2
        then tomar_peticion_open e d
        else if operacion == 3
        then tomar_peticion_read e d
        else if operacion == 4
        then tomar_peticion_que_envia ops.o_read_dir e d
        else if operacion == 5
        then tomar_peticion_que_envia ops.o_get_attr e d
        else if operacion == 6
        then tomar_peticion ops.o_mkdir e d
        else if operacion == 7
        then tomar_peticion ops.o_unlink e d
        else if operacion == 8
        then tomar_peticion ops.o_rmdir e d
        else if operacion == 9
        then tomar_peticion_write e d
        else if operacion == 10
        then tomar_peticion_truncate e d
        else if operacion == 11
        then tomar_peticion_rename e d
        else ok (d, ([], e))

    -- A turn of the loop of `socketThread`. A socket with nothing to read was closed, and the thread ends.
    unfoldable pub socket_thread : List ℕ → D → Atencion D
    unfolding despachar
    socket_thread [] d = ok (d, ([], []))
    socket_thread (b ∷ bs) d = do
      (tamanio_operacion, e) ← leer_int (b ∷ bs)
      (operacion, e1) ← leer_int e
      despachar operacion e1 d
