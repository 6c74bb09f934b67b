-- ===== src/SacCli/Remote.antt =====
-- A call of the client over the connection is the operation of the server.
use linuse_tp_os.Base.{
  ℕ, ◌^◌, ◌<◌, ◌≡◌, ◌∙◌, true, false, Option, none, some, List, [], ◌∷◌, ◌++◌, arith, ltb, ◌==◌, ℤ,
  pos, espera, Resultado, ok, fallo, ◌>>=◌, Logra, length, All,
}
use linuse_tp_os.Wire.{
  int_de, leer, leer_int, campo, campo_int, campo_signo, leer_campo_signo, Conexion, limpia,
}
use linuse_tp_os.Wire.Bytes.{
  leer-append, leer_int-int_de, leer_campo-campo, leer_campo_int-campo_int, IsInt,
  leer_campo_signo-campo_signo, leer_campo_signo-campo_int, leer_int-campo_int,
}
use linuse_tp_os.Sac.Connection.{
  Operaciones, respuesta_de, leer_ruta, leer_tamanio, tomar_peticion, tomar_peticion_write,
  tomar_peticion_truncate, tomar_peticion_rename, despachar, socket_thread,
}
use linuse_tp_os.SacCli.{pedido_con_ruta, enviar, leer_respuesta, pedir}
use mathlib.Core.List.{append-nil}

-- A path has no zero, and its length fits into an `int`.
abbrev pub IsRuta : List ℕ → Type 0
IsRuta path = All (λ b. (b == 0) ≡ false) path × (length path < 2 ^ 31)

-- What the server relies on of `string_substring_until`: a string cut at its length stays as it is.
abbrev pub IsCorte : (List ℕ → ℕ → List ℕ) → Type 0
IsCorte cortar = (xs : List ℕ) → All (λ b. (b == 0) ≡ false) xs → cortar xs (length xs) ≡ xs

-- A connection on which nothing waits, or an answer that the client did not read.
abbrev pub atrasada : {D : Type 0} → Option ℤ → D → Conexion D
atrasada none d = limpia d
atrasada (some w) d = record { pendiente = respuesta_de w; por_atender = []; servidor = d }

abbrev pub IsAtraso : Option ℤ → Type 0
IsAtraso none = Unit
IsAtraso (some w) = IsInt w

module _ {D : Type 0} (string_substring_until : List ℕ → ℕ → List ℕ) (ops : Operaciones D)
    (corte : IsCorte string_substring_until) where
  pub leer_ruta-campo :
      (path r : List ℕ)
      → IsRuta path
      → leer_ruta string_substring_until (campo path ++ r) ≡ ok (path, r)
  unfolding leer_ruta
  leer_ruta-campo path r h = rw (leer_campo-campo path r h.1, corte path h.0)

  socket_thread-leer :
      (e e1 e2 : List ℕ) (tamanio operacion : ℕ) (d : D)
      → leer_int e ≡ ok (tamanio, e1)
      → leer_int e1 ≡ ok (operacion, e2)
      → socket_thread string_substring_until ops e d
        ≡ despachar string_substring_until ops operacion e2 d
  unfolding socket_thread leer_int leer
  socket_thread-leer [] e1 e2 tamanio operacion d p q =
      let nada : Resultado (ℕ × List ℕ) = fallo espera in let x : nada ≡ ok (tamanio, e1) = p in cc
  socket_thread-leer (b ∷ bs) e1 e2 tamanio operacion d p q = rw (p, q)

  pub socket_thread-campo_int :
      (n : ℕ) (e : List ℕ) (d : D)
      → n < 2 ^ 32
      → socket_thread string_substring_until ops (campo_int n ++ e) d
        ≡ despachar string_substring_until ops n e d
  socket_thread-campo_int n e d h =
      socket_thread-leer (campo_int n ++ e) (int_de n ++ e) e (length (int_de n)) n d
        (leer_int-campo_int n e) (leer_int-int_de n e h)

  -- What the client gets of an operation that answers an `int`: the answer, or the one that waits.
  abbrev pub entregar : Option ℤ → (ℤ → ℤ) → Resultado (D × ℤ) → Resultado (Conexion D × ℤ)
  entregar none f m = do (d, z) ← m; ok (limpia d, f z)
  entregar (some w) f m = do (d, z) ← m; ok (atrasada (some z) d, f w)

  abbrev pub atender_con : Resultado (D × ℤ) → Resultado (D × (List ℕ × List ℕ))
  atender_con m = do (d, z) ← m; ok (d, (respuesta_de z, []))

  pub pedir-entregar :
      (o : Option ℤ) (envio : List ℕ) (d : D) (m : Resultado (D × ℤ))
      → IsAtraso o
      → socket_thread string_substring_until ops envio d ≡ atender_con m
      → Logra (λ r. IsInt r.1) m
      → pedir string_substring_until ops envio (atrasada o d) ≡ entregar o (λ z. z) m
  unfolding pedir enviar leer_respuesta respuesta_de
  pedir-entregar none envio d (ok (d', z)) i e h =
      let leida : leer_campo_signo (campo_signo z) ≡ ok (z, []) =
        rw append-nil at (leer_campo_signo-campo_signo z [] h) in
      rw (e, leida)
  pedir-entregar (some w) envio d (ok (d', z)) i e h =
      rw (e, leer_campo_signo-campo_signo w (campo_signo z) i)
  pedir-entregar none envio d (fallo x) i e h = rw e
  pedir-entregar (some w) envio d (fallo x) i e h = rw e

  pub tomar_peticion-campo :
      (op : List ℕ → D → Resultado (D × ℤ)) (path : List ℕ) (d : D)
      → IsRuta path
      → tomar_peticion string_substring_until ops op (campo path) d ≡ atender_con (op path d)
  unfolding tomar_peticion
  tomar_peticion-campo op path d h =
      let leida : leer_ruta string_substring_until (campo path) ≡ ok (path, []) =
        rw append-nil at (leer_ruta-campo path [] h) in
      rw leida

  -- A request that has a path only, of that number.
  pub con_ruta :
      (n : ℕ) (op : List ℕ → D → Resultado (D × ℤ)) (path : List ℕ) (d : D)
      → n < 2 ^ 32
      → ((e : List ℕ)
          → despachar string_substring_until ops n e d
            ≡ tomar_peticion string_substring_until ops op e d)
      → IsRuta path
      → socket_thread string_substring_until ops (pedido_con_ruta n path) d
        ≡ atender_con (op path d)
  unfolding pedido_con_ruta
  con_ruta n op path d l f h =
      socket_thread-campo_int n (campo path) d l ∙ f (campo path) ∙ tomar_peticion-campo op path d h

  pub tomar_truncate-campo :
      (path : List ℕ) (offset : ℕ) (d : D)
      → IsRuta path
      → offset < 2 ^ 31
      → tomar_peticion_truncate string_substring_until ops (campo path ++ campo_int offset) d
        ≡ atender_con (ops.o_truncate path (pos offset) d)
  unfolding tomar_peticion_truncate
  tomar_truncate-campo path offset d h l =
      let leido : leer_campo_signo (campo_int offset) ≡ ok (pos offset, []) =
        rw append-nil at (leer_campo_signo-campo_int offset [] l) in
      rw (leer_ruta-campo path (campo_int offset) h, leido)

  pub tomar_rename-campo :
      (oldpath newpath : List ℕ) (d : D)
      → IsRuta oldpath
      → IsRuta newpath
      → tomar_peticion_rename string_substring_until ops (campo oldpath ++ campo newpath) d
        ≡ atender_con (ops.o_rename oldpath newpath d)
  unfolding tomar_peticion_rename
  tomar_rename-campo oldpath newpath d h k =
      let leida : leer_ruta string_substring_until (campo newpath) ≡ ok (newpath, []) =
        rw append-nil at (leer_ruta-campo newpath [] k) in
      rw (leer_ruta-campo oldpath (campo newpath) h, leida)

  pub tomar_write-campo :
      (path buf : List ℕ) (largo offset : ℕ) (d : D)
      → IsRuta path
      → length buf < 2 ^ 31
      → largo < 2 ^ 32
      → offset < 2 ^ 31
      → tomar_peticion_write string_substring_until ops
          (campo path ++ (campo_int (length buf) ++ (campo_int offset ++ (int_de largo ++ buf))))
          d
        ≡ atender_con (ops.o_write path (length buf) (pos offset) buf d)
  unfolding tomar_peticion_write leer_tamanio
  tomar_write-campo path buf largo offset d h l k m =
      let leido : leer (length buf) buf ≡ ok (buf, []) = rw append-nil at (leer-append buf []) in
      let corto : ltb (length buf) (2 ^ 31) ≡ true = ground arith in
      rw (
        leer_ruta-campo path _ h,
        leer_campo_int-campo_int (length buf) (campo_int offset ++ (int_de largo ++ buf))
            (omega arith),
        corto,
        leer_campo_signo-campo_int offset (int_de largo ++ buf) m,
        leer_int-int_de largo buf k,
        leido,
      )
