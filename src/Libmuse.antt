-- ===== src/Libmuse.antt =====
-- The client library of MUSE (Libmuse/libmuse.c), over a connection to the server of Memoria/utils.c.
pub mod Remote
pub mod Tests
use linuse_tp_os.Base.{ℕ, zero, suc, List, [], ◌++◌, ℤ, pos, negsuc, Resultado, ok, ◌>>=◌, length}
use linuse_tp_os.Wire.{
  leer, leer_int, campo, leer_campo_int, campo_int, leer_campo_signo, Conexion, intercambiar,
}
use linuse_tp_os.Muse.Connection.{OperacionesMuse, turno_muse}

-- A request: its number, and what goes with it.
unfoldable pub peticion_de : ℕ → List ℕ → List ℕ
peticion_de peticion resto = campo_int peticion ++ resto

-- What `muse_get` leaves at `dst`.
abbrev pub destino : ℤ → List ℕ → List ℕ → List ℕ
destino (pos zero) dst respuesta = respuesta
destino (pos (suc n)) dst respuesta = dst
destino (negsuc n) dst respuesta = dst

module _ {S : Type 0} (ops : OperacionesMuse S) (cliente : ℕ) where
  unfoldable pub enviar_muse : List ℕ → Conexion S → Resultado (Conexion S)
  unfolding intercambiar
  enviar_muse envio c = intercambiar (turno_muse ops cliente) envio c

  -- An answer that is one `int`, its size first.
  unfoldable pub leer_resultado : Conexion S → Resultado (Conexion S × ℤ)
  leer_resultado c = do (z, r) ← leer_campo_signo c.pendiente; ok (record c { pendiente = r }, z)

  -- Over a socket that is connected.
  unfoldable pub muse_init : Conexion S → Resultado (Conexion S × ℤ)
  unfolding peticion_de enviar_muse
  muse_init c = do c1 ← enviar_muse (peticion_de 1 []) c; ok (c1, pos 0)

  unfoldable pub muse_close : Conexion S → Resultado (Conexion S)
  unfolding peticion_de enviar_muse
  muse_close c = enviar_muse (peticion_de 2 []) c

  unfoldable pub muse_alloc : ℕ → Conexion S → Resultado (Conexion S × ℕ)
  unfolding peticion_de enviar_muse
  muse_alloc tam c = do
    c1 ← enviar_muse (peticion_de 3 (campo_int tam)) c
    (tamanio, r) ← leer_int c1.pendiente
    (direccion, r1) ← leer_int r
    ok (record c1 { pendiente = r1 }, direccion)

  unfoldable pub muse_free : ℕ → Conexion S → Resultado (Conexion S)
  unfolding peticion_de enviar_muse
  muse_free dir c = enviar_muse (peticion_de 4 (campo_int dir)) c

  -- `dst` has `n` bytes, which are sent, and what is there afterwards comes with the result.
  unfoldable pub muse_get : List ℕ → ℕ → Conexion S → Resultado (Conexion S × (ℤ × List ℕ))
  unfolding peticion_de enviar_muse leer_resultado
  muse_get dst src c = do
    c1 ← enviar_muse (peticion_de 5 (campo dst ++ (campo_int src ++ campo_int (length dst)))) c
    (c2, resultado) ← leer_resultado c1
    (tamanio_respuesta, r) ← leer_int c2.pendiente
    (respuesta, r1) ← leer (length dst) r
    ok (record c2 { pendiente = r1 }, (resultado, destino resultado dst respuesta))

  -- `src` has `n` bytes.
  unfoldable pub muse_cpy : ℕ → List ℕ → Conexion S → Resultado (Conexion S × ℤ)
  unfolding peticion_de enviar_muse leer_resultado
  muse_cpy dst src c = do
    c1 ← enviar_muse (peticion_de 6 (campo_int dst ++ (campo src ++ campo_int (length src)))) c
    leer_resultado c1

  unfoldable pub muse_map : List ℕ → ℕ → ℕ → Conexion S → Resultado (Conexion S × ℕ)
  unfolding peticion_de enviar_muse
  muse_map path longitud flags c = do
    c1 ← enviar_muse (peticion_de 7 (campo path ++ (campo_int longitud ++ campo_int flags))) c
    (posicion, r) ← leer_campo_int c1.pendiente
    ok (record c1 { pendiente = r }, posicion)

  unfoldable pub muse_sync : ℕ → ℕ → Conexion S → Resultado (Conexion S × ℤ)
  unfolding peticion_de enviar_muse leer_resultado
  muse_sync addr len c = do
    c1 ← enviar_muse (peticion_de 8 (campo_int addr ++ campo_int len)) c
    leer_resultado c1

  unfoldable pub muse_unmap : ℕ → Conexion S → Resultado (Conexion S × ℤ)
  unfolding peticion_de enviar_muse leer_resultado
  muse_unmap dir c = do c1 ← enviar_muse (peticion_de 9 (campo_int dir)) c; leer_resultado c1
