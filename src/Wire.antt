-- ===== src/Wire.antt =====
-- What travels over the sockets: `int`s of four bytes, the lowest first, and fields that a length goes
-- before. The clients and the servers of the three protocols write them with `memcpy` and `send`, and
-- take them with `read` (Memoria/utils.c, Libmuse/libmuse.c, Sac-Server/conexionServer.c, Sac-Cli/sacCli.c,
-- Planificador/SUSE/SUSE.c, Planificador/Hilolay/hilolay/implementaciones.c).
pub mod Bytes
use linuse_tp_os.Base.{
  ℕ, zero, suc, ◌+◌, ◌-◌, ◌*◌, ◌/◌, ◌%◌, ◌^◌, List, [], ◌∷◌, ◌++◌, ltb, if◌then◌else◌, ℤ, pos,
  negsuc, espera, fuera_de_rango, indeterminado, Resultado, ok, fallo, ◌>>=◌, length,
}

-- The `w` bytes of a number.
unfoldable pub bytes_de : ℕ → ℕ → List ℕ
bytes_de zero x = []
bytes_de (suc w) x = x % 256 ∷ bytes_de w (x / 256)

unfoldable pub valor_de : List ℕ → ℕ
valor_de [] = 0
valor_de (b ∷ bs) = b + 256 * valor_de bs

-- An `int`, an `uint32_t` or a `size_t`: the binaries of the repository are for machines of 32 bits.
unfoldable pub int_de : ℕ → List ℕ
int_de x = bytes_de 4 x

-- `read` of `n` bytes, with what is left. A reader of bytes that never come waits.
unfoldable pub leer : ℕ → List ℕ → Resultado (List ℕ × List ℕ)
leer zero e = ok ([], e)
leer (suc n) [] = fallo espera
leer (suc n) (b ∷ e) = do (bs, r) ← leer n e; ok (b ∷ bs, r)

unfoldable pub leer_int : List ℕ → Resultado (ℕ × List ℕ)
leer_int e = do (bs, r) ← leer 4 e; ok (valor_de bs, r)

-- A field, its length first. A length from 2 ^ 31 on is a negative `int`, which `malloc` does not serve.
unfoldable pub campo : List ℕ → List ℕ
campo bs = int_de (length bs) ++ bs

unfoldable pub leer_campo : List ℕ → Resultado (List ℕ × List ℕ)
leer_campo e = do (n, r) ← leer_int e; if ltb n (2 ^ 31) then leer n r else fallo fuera_de_rango

-- A pointer to a number of `w` bytes is dereferenced: it reads the first `w` bytes of the field.
unfoldable pub como_numero : ℕ → List ℕ → Resultado ℕ
como_numero w bs = elim (leer w bs) [
  | fallo x ↦ fallo indeterminado
  | ok (ys, r) ↦ ok (valor_de ys)
]

unfoldable pub leer_campo_int : List ℕ → Resultado (ℕ × List ℕ)
leer_campo_int e = do (bs, r) ← leer_campo e; n ← como_numero 4 bs; ok (n, r)

-- An `int` as a signed number, in two's complement.
unfoldable pub con_signo : ℕ → ℤ
con_signo x = if ltb x (2 ^ 31) then pos x else negsuc (2 ^ 32 - 1 - x)

unfoldable pub sin_signo : ℤ → ℕ
sin_signo (pos n) = n % 2 ^ 32
sin_signo (negsuc n) = 2 ^ 32 - 1 - n % 2 ^ 32

-- A field with an `int`, and one with a signed one.
unfoldable pub campo_int : ℕ → List ℕ
campo_int x = campo (int_de x)

unfoldable pub campo_signo : ℤ → List ℕ
campo_signo z = campo (int_de (sin_signo z))

unfoldable pub leer_campo_signo : List ℕ → Resultado (ℤ × List ℕ)
leer_campo_signo e = do (n, r) ← leer_campo_int e; ok (con_signo n, r)

-- A turn of a server leaves its state, what it sends, and what is still to be read.
abbrev pub Atencion : Type 0 → Type 0
Atencion D = Resultado (D × (List ℕ × List ℕ))

-- A connection: what waits to be read by the client and by the server, and the state of the server.
pub record Conexion (D : Type 0) : Type 0 where
  pub pendiente : List ℕ
  pub por_atender : List ℕ
  pub servidor : D

-- A connection on which nothing waits.
abbrev pub limpia : {D : Type 0} → D → Conexion D
limpia d = record { pendiente = []; por_atender = []; servidor = d }

-- `send`, and the turn of the server, whose answer waits behind what was not read yet.
unfoldable pub intercambiar :
    {D : Type 0} → (List ℕ → D → Atencion D) → List ℕ → Conexion D → Resultado (Conexion D)
intercambiar turno envio c = do
  (d, (respuesta, resto)) ← turno (c.por_atender ++ envio) c.servidor
  ok (record { pendiente = c.pendiente ++ respuesta; por_atender = resto; servidor = d })
