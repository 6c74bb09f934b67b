-- ===== src/SacCli/Calls.antt =====
-- The calls of FUSE whose answer is one number, as calls of the operations of the server.
use linuse_tp_os.Base.{
  ℕ, ◌^◌, ◌<◌, ◌≡◌, refl, ◌∙◌, Option, none, some, List, ◌++◌, arith, ℤ, pos, Resultado, ok, fallo,
  ◌>>=◌, Logra, length,
}
use linuse_tp_os.Wire.{int_de, campo, campo_int, Conexion}
use linuse_tp_os.Wire.Bytes.{IsInt}
use linuse_tp_os.Sac.Connection.{Operaciones, despachar, socket_thread}
use linuse_tp_os.SacCli.{
  pedido_con_ruta, cero_o, escritos, pedir, hello_create, hello_mkdir, hello_unlink, hello_rmdir,
  hello_truncate, hello_rename, hello_write,
}
use linuse_tp_os.SacCli.Remote.{
  IsRuta, IsCorte, atrasada, IsAtraso, socket_thread-campo_int, entregar, atender_con,
  pedir-entregar, con_ruta, tomar_truncate-campo, tomar_rename-campo, tomar_write-campo,
}

-- `write` has the path, the bytes, what `strlen` makes of them, and the offset.
pub data Llamada : Type 0 where
  create mkdir unlink rmdir : List ℕ → Llamada
  truncate : List ℕ → ℕ → Llamada
  rename : List ℕ → List ℕ → Llamada
  write : List ℕ → List ℕ → ℕ → ℕ → Llamada

-- Paths without zeros, and numbers that fit into an `int`.
abbrev pub IsLlamada : Llamada → Type 0
IsLlamada (create path) = IsRuta path
IsLlamada (mkdir path) = IsRuta path
IsLlamada (unlink path) = IsRuta path
IsLlamada (rmdir path) = IsRuta path
IsLlamada (truncate path offset) = IsRuta path × (offset < 2 ^ 31)
IsLlamada (rename oldpath newpath) = IsRuta oldpath × IsRuta newpath
IsLlamada (write path buf largo offset) =
    IsRuta path × (length buf < 2 ^ 31) × (largo < 2 ^ 32) × (offset < 2 ^ 31)

module _ {D : Type 0} (ops : Operaciones D) where
  -- The operation of the server.
  abbrev pub operacion : Llamada → D → Resultado (D × ℤ)
  operacion (create path) d = ops.o_create path d
  operacion (mkdir path) d = ops.o_mkdir path d
  operacion (unlink path) d = ops.o_unlink path d
  operacion (rmdir path) d = ops.o_rmdir path d
  operacion (truncate path offset) d = ops.o_truncate path (pos offset) d
  operacion (rename oldpath newpath) d = ops.o_rename oldpath newpath d
  operacion (write path buf largo offset) d = ops.o_write path (length buf) (pos offset) buf d

-- What FUSE is told of the answer of the server.
abbrev pub respuesta_fuse : ℤ → Llamada → ℤ → ℤ
respuesta_fuse errno (create path) z = cero_o errno z
respuesta_fuse errno (mkdir path) z = cero_o errno z
respuesta_fuse errno (unlink path) z = cero_o errno z
respuesta_fuse errno (rmdir path) z = cero_o errno z
respuesta_fuse errno (truncate path offset) z = cero_o errno z
respuesta_fuse errno (rename oldpath newpath) z = cero_o errno z
respuesta_fuse errno (write path buf largo offset) z = escritos z

module _ {D : Type 0} (string_substring_until : List ℕ → ℕ → List ℕ) (ops : Operaciones D)
    (errno : ℤ) where
  abbrev pub hello : Llamada → Conexion D → Resultado (Conexion D × ℤ)
  hello (create path) c = hello_create string_substring_until ops errno path c
  hello (mkdir path) c = hello_mkdir string_substring_until ops errno path c
  hello (unlink path) c = hello_unlink string_substring_until ops errno path c
  hello (rmdir path) c = hello_rmdir string_substring_until ops errno path c
  hello (truncate path offset) c = hello_truncate string_substring_until ops errno path offset c
  hello (rename oldpath newpath) c = hello_rename string_substring_until ops errno oldpath newpath c
  hello (write path buf largo offset) c =
      hello_write string_substring_until ops path buf largo offset c

  con_respuesta :
      (corte : IsCorte string_substring_until) (o : Option ℤ) (f : ℤ → ℤ) (m : Resultado (D × ℤ))
      → (entregar string_substring_until ops corte o (λ z. z) m >>= λ (r : Conexion D × ℤ).
          ok (r.0, f r.1))
        ≡ entregar string_substring_until ops corte o f m
  con_respuesta corte none f (ok a) = refl
  con_respuesta corte none f (fallo x) = refl
  con_respuesta corte (some w) f (ok a) = refl
  con_respuesta corte (some w) f (fallo x) = refl

  pedir-respuesta :
      (corte : IsCorte string_substring_until) (o : Option ℤ) (f : ℤ → ℤ) (envio : List ℕ) (d : D)
      (m : Resultado (D × ℤ))
      → IsAtraso o
      → socket_thread string_substring_until ops envio d
        ≡ atender_con string_substring_until ops corte m
      → Logra (λ r. IsInt r.1) m
      → (pedir string_substring_until ops envio (atrasada o d) >>= λ (r : Conexion D × ℤ).
          ok (r.0, f r.1))
        ≡ entregar string_substring_until ops corte o f m
  pedir-respuesta corte o f envio d m i e k =
      rw (pedir-entregar string_substring_until ops corte o envio d m i e k)
        (con_respuesta corte o f m)

  -- A call is the operation of the server, with its state and its failure. On a connection where
  -- nothing waits its answer is that of the operation, and nothing waits afterwards; where an answer
  -- waits it is that answer, and that of the operation waits afterwards.
  pub hello-operacion :
      (corte : IsCorte string_substring_until) (o : Option ℤ) (l : Llamada) (d : D)
      → IsAtraso o
      → IsLlamada l
      → Logra (λ r. IsInt r.1) (operacion ops l d)
      → hello l (atrasada o d)
        ≡ entregar string_substring_until ops corte o (respuesta_fuse errno l) (operacion ops l d)
  unfolding hello_create hello_mkdir hello_unlink hello_rmdir hello_truncate hello_rename
      hello_write despachar
  hello-operacion corte o (create path) d i h k =
      pedir-respuesta corte o (cero_o errno) (pedido_con_ruta 1 path) d (ops.o_create path d) i
        (con_ruta string_substring_until ops corte 1 ops.o_create path d (omega arith) (λ e. refl)
          h)
        k
  hello-operacion corte o (mkdir path) d i h k =
      pedir-respuesta corte o (cero_o errno) (pedido_con_ruta 6 path) d (ops.o_mkdir path d) i
        (con_ruta string_substring_until ops corte 6 ops.o_mkdir path d (omega arith) (λ e. refl) h)
        k
  hello-operacion corte o (unlink path) d i h k =
      pedir-respuesta corte o (cero_o errno) (pedido_con_ruta 7 path) d (ops.o_unlink path d) i
        (con_ruta string_substring_until ops corte 7 ops.o_unlink path d (omega arith) (λ e. refl)
          h)
        k
  hello-operacion corte o (rmdir path) d i h k =
      pedir-respuesta corte o (cero_o errno) (pedido_con_ruta 8 path) d (ops.o_rmdir path d) i
        (con_ruta string_substring_until ops corte 8 ops.o_rmdir path d (omega arith) (λ e. refl) h)
        k
  hello-operacion corte o (truncate path offset) d i h k =
      pedir-respuesta corte o (cero_o errno) _ d (ops.o_truncate path (pos offset) d) i
        (socket_thread-campo_int string_substring_until ops corte 10
            (campo path ++ campo_int offset) d (omega arith)
          ∙ tomar_truncate-campo string_substring_until ops corte path offset d h.0 h.1)
        k
  hello-operacion corte o (rename oldpath newpath) d i h k =
      pedir-respuesta corte o (cero_o errno) _ d (ops.o_rename oldpath newpath d) i
        (socket_thread-campo_int string_substring_until ops corte 11
            (campo oldpath ++ campo newpath) d (omega arith)
          ∙ tomar_rename-campo string_substring_until ops corte oldpath newpath d h.0 h.1)
        k
  hello-operacion corte o (write path buf largo offset) d i h k =
      pedir-respuesta corte o escritos _ d (ops.o_write path (length buf) (pos offset) buf d) i
        (socket_thread-campo_int string_substring_until ops corte 9
            (campo path ++ (campo_int (length buf) ++ (campo_int offset ++ (int_de largo ++ buf))))
            d (omega arith)
          ∙ tomar_write-campo string_substring_until ops corte path buf largo offset d h.0 h.1 h.2
              h.3)
        k
