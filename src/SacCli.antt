-- ===== src/SacCli.antt =====
-- The client of the file server: the `hello_` functions of Sac-Cli/sacCli.c, which FUSE calls, over a
-- connection to the server of Sac-Server/conexionServer.c.
pub mod Remote
pub mod Calls
pub mod Reading
pub mod Attributes
pub mod Listing
pub mod Directories
pub mod Tests
use linuse_tp_os.Base.{
  ℕ, zero, suc, List, [], ◌∷◌, ◌++◌, ◌==◌, if◌then◌else◌, iguales, ℤ, pos, negsuc, Resultado, ok,
  ◌>>=◌, length,
}
use linuse_tp_os.Wire.{
  int_de, leer, leer_int, campo, leer_campo, leer_campo_int, campo_int, leer_campo_signo, Conexion,
  intercambiar,
}
use linuse_tp_os.Sac.Connection.{Operaciones, socket_thread}

-- The fields of `struct stat` that are set. The others are what FUSE put there.
pub record Stat : Type 0 where
  pub st_mode : ℕ
  pub st_nlink : ℕ
  pub st_size : ℕ
  pub st_mtime : ℕ
  pub st_ctime : ℕ
  pub st_atime : ℕ

-- The buffer of the requests that have a path only: the number of the request, and the path.
unfoldable pub pedido_con_ruta : ℕ → List ℕ → List ℕ
pedido_con_ruta peticion path = campo_int peticion ++ campo path

-- 0, or the `errno` of the client.
unfoldable pub cero_o : ℤ → ℤ → ℤ
cero_o errno (pos zero) = pos 0
cero_o errno (pos (suc n)) = errno
cero_o errno (negsuc n) = errno

-- -1 is no space left: -ENOSPC is -28.
unfoldable pub escritos : ℤ → ℤ
escritos (pos n) = pos n
escritos (negsuc zero) = negsuc 27
escritos (negsuc (suc n)) = negsuc (suc n)

-- S_IFDIR with all permissions.
abbrev pub modo_directorio : ℕ
modo_directorio = 16895

-- "/"
abbrev pub raiz : List ℕ
raiz = 47 ∷ []

-- The fields that `hello_getattr` reads after a 1, and after a 0. FUSE clears the struct before, so the
-- four bytes that are copied into `st_size` are all of it.
unfoldable pub leer_stat : Stat → List ℕ → Resultado (Stat × List ℕ)
leer_stat stbuf r = do
  (mode, r1) ← leer_campo_int r
  (nlink, r2) ← leer_campo_int r1
  (bytes_escritos, r3) ← leer_campo_int r2
  ok (record stbuf { st_mode = mode; st_nlink = nlink; st_size = bytes_escritos }, r3)

unfoldable pub leer_stat_con_fechas : Stat → List ℕ → Resultado (Stat × List ℕ)
unfolding leer_stat
leer_stat_con_fechas stbuf r = do
  (st, r3) ← leer_stat stbuf r
  (modificacion, r4) ← leer_campo_int r3
  (creacion, r5) ← leer_campo_int r4
  (acceso, r6) ← leer_campo_int r5
  ok (record st { st_mtime = modificacion; st_ctime = creacion; st_atime = acceso }, r6)

module _ {D : Type 0} (string_substring_until : List ℕ → ℕ → List ℕ) (ops : Operaciones D) where
  unfoldable pub enviar : List ℕ → Conexion D → Resultado (Conexion D)
  unfolding intercambiar
  enviar envio c = intercambiar (socket_thread string_substring_until ops) envio c

  unfoldable pub leer_respuesta : Conexion D → Resultado (Conexion D × ℤ)
  leer_respuesta c = do (z, r) ← leer_campo_signo c.pendiente; ok (record c { pendiente = r }, z)

  unfoldable pub pedir : List ℕ → Conexion D → Resultado (Conexion D × ℤ)
  unfolding enviar leer_respuesta
  pedir envio c = do c1 ← enviar envio c; leer_respuesta c1

  module _ (errno : ℤ) where
    unfoldable pub hello_create : List ℕ → Conexion D → Resultado (Conexion D × ℤ)
    unfolding pedir cero_o pedido_con_ruta
    hello_create path c = do (c', z) ← pedir (pedido_con_ruta 1 path) c; ok (c', cero_o errno z)

    unfoldable pub hello_mkdir : List ℕ → Conexion D → Resultado (Conexion D × ℤ)
    unfolding pedir cero_o pedido_con_ruta
    hello_mkdir path c = do (c', z) ← pedir (pedido_con_ruta 6 path) c; ok (c', cero_o errno z)

    unfoldable pub hello_unlink : List ℕ → Conexion D → Resultado (Conexion D × ℤ)
    unfolding pedir cero_o pedido_con_ruta
    hello_unlink path c = do (c', z) ← pedir (pedido_con_ruta 7 path) c; ok (c', cero_o errno z)

    unfoldable pub hello_rmdir : List ℕ → Conexion D → Resultado (Conexion D × ℤ)
    unfolding pedir cero_o pedido_con_ruta
    hello_rmdir path c = do (c', z) ← pedir (pedido_con_ruta 8 path) c; ok (c', cero_o errno z)

    unfoldable pub hello_truncate : List ℕ → ℕ → Conexion D → Resultado (Conexion D × ℤ)
    unfolding pedir cero_o
    hello_truncate path offset c = do
      (c', z) ← pedir (campo_int 10 ++ (campo path ++ campo_int offset)) c
      ok (c', cero_o errno z)

    unfoldable pub hello_rename : List ℕ → List ℕ → Conexion D → Resultado (Conexion D × ℤ)
    unfolding pedir cero_o
    hello_rename oldpath newpath c = do
      (c', z) ← pedir (campo_int 11 ++ (campo oldpath ++ campo newpath)) c
      ok (c', cero_o errno z)

  unfoldable pub hello_open : List ℕ → Conexion D → Resultado (Conexion D × ℤ)
  hello_open path c = ok (c, pos 0)

  -- `largo` is the `strlen` of the buffer, which is sent before its `size` bytes.
  unfoldable pub hello_write : List ℕ → List ℕ → ℕ → ℕ → Conexion D → Resultado (Conexion D × ℤ)
  unfolding pedir escritos
  hello_write path buf largo offset c = do
    (c', z) ←
        pedir
          (campo_int 9
            ++ (campo path
                ++ (campo_int (length buf) ++ (campo_int offset ++ (int_de largo ++ buf)))))
          c
    ok (c', escritos z)

  -- The result, and what is put into the buffer.
  unfoldable pub hello_read : List ℕ → ℕ → ℕ → Conexion D → Resultado (Conexion D × (ℕ × List ℕ))
  unfolding enviar
  hello_read path size offset c = do
    c1 ← enviar (campo_int 3 ++ (campo path ++ (campo_int size ++ campo_int offset))) c
    (tamanio_texto, r) ← leer_int c1.pendiente
    if tamanio_texto == 0
        then ok (record c1 { pendiente = r }, (0, []))
        else (do (texto, r1) ← leer size r; ok (record c1 { pendiente = r1 }, (size, texto)))

  -- -ENOENT is -2. The names are those that `filler` is given after "." and "..".
  unfoldable pub hello_readdir :
      (List ℕ → List (List ℕ)) → List ℕ → Conexion D → Resultado (Conexion D × (ℤ × List (List ℕ)))
  unfolding enviar pedido_con_ruta
  hello_readdir string_split path c = do
    c1 ← enviar (pedido_con_ruta 4 path) c
    (res, r) ← leer_campo_int c1.pendiente
    if res == 0
        then (do
          (texto, r1) ← leer_campo r
          ok (
            record c1 { pendiente = r1 },
            (pos 0, string_split (string_substring_until texto (length texto))),
          ))
        else ok (record c1 { pendiente = r }, (negsuc 1, []))

  unfoldable pub hello_getattr : List ℕ → Stat → Conexion D → Resultado (Conexion D × (ℤ × Stat))
  unfolding enviar pedido_con_ruta leer_stat leer_stat_con_fechas
  hello_getattr path stbuf c =
      if iguales path raiz
      then ok (c, (pos 0, record stbuf { st_mode = modo_directorio; st_nlink = 2 }))
      else (do
        c1 ← enviar (pedido_con_ruta 5 path) c
        (res, r) ← leer_campo_int c1.pendiente
        (st, r1) ←
            (if res == 1
              then leer_stat stbuf r
              else if res == 0
              then leer_stat_con_fechas stbuf r
              else ok (stbuf, r))
        ok (
          record c1 { pendiente = r1 },
          ((if res == 1 then pos 0 else if res == 0 then pos 0 else negsuc 1), st),
        ))
