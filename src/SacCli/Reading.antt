-- ===== src/SacCli/Reading.antt =====
-- `hello_read` of Sac-Cli/sacCli.c over `tomarPeticionRead` of Sac-Server/conexionServer.c.
use linuse_tp_os.Base.{
  ℕ, zero, suc, ◌-◌, ◌%◌, ◌^◌, ◌<◌, ◌≡◌, ◌∙◌, true, false, some, List, [], ◌++◌, arith, ltb, ◌==◌,
  ℤ, pos, negsuc, ok, ◌>>=◌, Logra, length,
}
use linuse_tp_os.Wire.{
  leer, leer_int, campo, sin_signo, campo_int, leer_campo_signo, Conexion, limpia,
}
use linuse_tp_os.Wire.Bytes.{
  leer-append_igual, leer_int-int_de, leer_campo_int-campo_int, IsInt, leer_campo_signo-campo_int,
}
use linuse_tp_os.Sac.Connection.{
  Operaciones, respuesta_de, leer_tamanio, envio_read, tomar_peticion_read, despachar,
  socket_thread,
}
use linuse_tp_os.SacCli.{enviar, hello_read}
use linuse_tp_os.SacCli.Remote.{IsRuta, IsCorte, atrasada, leer_ruta-campo, socket_thread-campo_int}
use linuse_tp_os.SacCli.Calls.{
  Llamada, IsLlamada, operacion, respuesta_fuse, hello, hello-operacion,
}
use mathlib.Core.List.{append-nil}

-- What the client has after a read that the server answers by `z`, with `size` bytes of text.
abbrev pub tras_leer : {D : Type 0} → ℤ → ℕ → List ℕ → D → Conexion D × (ℕ × List ℕ)
tras_leer (pos zero) size texto d = (limpia d, (0, []))
tras_leer (pos (suc n)) size texto d = (limpia d, (size, texto))
tras_leer (negsuc zero) size texto d = (atrasada (some (negsuc 0)) d, (size, texto))
tras_leer (negsuc (suc n)) size texto d = (limpia d, (size, texto))

module _ {D : Type 0} (string_substring_until : List ℕ → ℕ → List ℕ) (ops : Operaciones D)
    (corte : IsCorte string_substring_until) where
  tomar_read-campo :
      (path : List ℕ) (size offset : ℕ) (d : D)
      → IsRuta path
      → size < 2 ^ 31
      → offset < 2 ^ 31
      → tomar_peticion_read string_substring_until ops
          (campo path ++ (campo_int size ++ campo_int offset))
          d
        ≡ (ops.o_read path size (pos offset) d >>= λ (r : D × (ℤ × List ℕ)).
            ok (r.0, (envio_read string_substring_until ops r.1.0 r.1.1, [])))
  unfolding tomar_peticion_read leer_tamanio
  tomar_read-campo path size offset d h l k =
      let leido : leer_campo_signo (campo_int offset) ≡ ok (pos offset, []) =
        rw append-nil at (leer_campo_signo-campo_int offset [] k) in
      let corto : ltb size (2 ^ 31) ≡ true = ground arith in
      rw (
        leer_ruta-campo string_substring_until ops corte path (campo_int size ++ campo_int offset)
            h,
        leer_campo_int-campo_int size (campo_int offset) (omega arith),
        corto,
        leido,
      )

  -- The answer that comes first, and what comes after it.
  leer_envio :
      (z : ℤ) (texto : List ℕ)
      → IsInt z
      → leer_int (envio_read string_substring_until ops z texto)
        ≡ ok (
          sin_signo z,
          (elim z [
            | pos zero ↦ []
            | pos (suc n) ↦ texto
            | negsuc zero ↦ texto ++ respuesta_de (negsuc 0)
            | negsuc (suc n) ↦ texto
          ]),
        )
  unfolding envio_read sin_signo
  leer_envio (pos zero) texto h = rw append-nil at (leer_int-int_de 0 [] (omega arith))
  leer_envio (pos (suc n)) texto h = leer_int-int_de (suc n % 2 ^ 32) texto (omega arith)
  leer_envio (negsuc zero) texto h = leer_int-int_de _ _ (omega arith)
  leer_envio (negsuc (suc n)) texto h = leer_int-int_de _ texto (omega arith)

  turno_read :
      (path : List ℕ) (size offset : ℕ) (d d' : D) (z : ℤ) (texto : List ℕ)
      → IsRuta path
      → size < 2 ^ 31
      → offset < 2 ^ 31
      → ops.o_read path size (pos offset) d ≡ ok (d', (z, texto))
      → socket_thread string_substring_until ops
          (campo_int 3 ++ (campo path ++ (campo_int size ++ campo_int offset)))
          d
        ≡ ok (d', (envio_read string_substring_until ops z texto, []))
  unfolding despachar
  turno_read path size offset d d' z texto h l k e =
      socket_thread-campo_int string_substring_until ops corte 3 _ d (omega arith)
      ∙ tomar_read-campo path size offset d h l k
      ∙ rw e

  -- A read over a connection where nothing waits: 0 for an answer 0; the size that was asked for, and
  -- the text, for any other; and after -1 an answer waits that the client did not read.
  pub hello_read-tras_leer :
      (path : List ℕ) (size offset : ℕ) (d d' : D) (z : ℤ) (texto : List ℕ)
      → IsRuta path
      → size < 2 ^ 31
      → offset < 2 ^ 31
      → IsInt z
      → length texto ≡ size
      → ops.o_read path size (pos offset) d ≡ ok (d', (z, texto))
      → hello_read string_substring_until ops path size offset (limpia d)
        ≡ ok (tras_leer z size texto d')
  unfolding hello_read enviar sin_signo
  hello_read-tras_leer path size offset d d' (pos zero) texto h l k i t e =
      rw (turno_read path size offset d d' (pos 0) texto h l k e, leer_envio (pos 0) texto i)
  hello_read-tras_leer path size offset d d' (pos (suc n)) texto h l k i t e =
      let no_cero : (suc n % 2 ^ 32 == 0) ≡ false = ground arith in
      let leido : leer size texto ≡ ok (texto, []) =
        rw append-nil at (leer-append_igual size texto [] t) in
      rw (
        turno_read path size offset d d' (pos (suc n)) texto h l k e,
        leer_envio (pos (suc n)) texto i,
        no_cero,
        leido,
      )
  hello_read-tras_leer path size offset d d' (negsuc zero) texto h l k i t e = rw (
    turno_read path size offset d d' (negsuc 0) texto h l k e,
    leer_envio (negsuc 0) texto i,
    leer-append_igual size texto (respuesta_de (negsuc 0)) t,
  )
  hello_read-tras_leer path size offset d d' (negsuc (suc n)) texto h l k i t e =
      let no_cero : (2 ^ 32 - 1 - suc n % 2 ^ 32 == 0) ≡ false = ground arith in
      let leido : leer size texto ≡ ok (texto, []) =
        rw append-nil at (leer-append_igual size texto [] t) in
      rw (
        turno_read path size offset d d' (negsuc (suc n)) texto h l k e,
        leer_envio (negsuc (suc n)) texto i,
        no_cero,
        leido,
      )

  -- After a read that the server refuses, a call that changes something answers as if the server had
  -- refused it too, whatever it did; its own answer waits for the call after it.
  pub hello_read-desfasada :
      (errno : ℤ) (path : List ℕ) (size offset : ℕ) (l : Llamada) (d d' : D) (texto : List ℕ)
      → IsRuta path
      → size < 2 ^ 31
      → offset < 2 ^ 31
      → length texto ≡ size
      → ops.o_read path size (pos offset) d ≡ ok (d', (negsuc 0, texto))
      → IsLlamada l
      → Logra (λ r. IsInt r.1) (operacion ops l d')
      → (hello_read string_substring_until ops path size offset (limpia d)
          >>= λ (r : Conexion D × (ℕ × List ℕ)). hello string_substring_until ops errno l r.0)
        ≡ (operacion ops l d' >>= λ (r : D × ℤ).
            ok (atrasada (some r.1) r.0, respuesta_fuse errno l (negsuc 0)))
  hello_read-desfasada errno path size offset l d d' texto h b k t e i c =
      rw (hello_read-tras_leer path size offset d d' (negsuc 0) texto h b k (omega arith) t e) (
        hello-operacion string_substring_until ops errno corte (some (negsuc 0)) l d' (omega arith)
          i c)
