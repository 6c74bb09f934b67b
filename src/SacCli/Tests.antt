-- ===== src/SacCli/Tests.antt =====
-- Calls of the client over a server that keeps the paths of its directories.
pub mod Disk
use linuse_tp_os.Base.{
  ℕ, zero, suc, ◌≡◌, refl, ap, none, some, List, [], ◌∷◌, arith, ℤ, pos, negsuc, Resultado, ok,
  ◌>>=◌, length,
}
use linuse_tp_os.Wire.{Conexion, limpia}
use linuse_tp_os.Sac.Connection.{Operaciones}
use linuse_tp_os.SacCli.{cero_o, hello_read}
use linuse_tp_os.SacCli.Remote.{atrasada}
use linuse_tp_os.SacCli.Calls.{mkdir, hello, hello-operacion}
use linuse_tp_os.SacCli.Reading.{hello_read-tras_leer, hello_read-desfasada}

abbrev negar : {D : Type 0} → List ℕ → D → Resultado (D × ℤ)
negar path d = ok (d, negsuc 0)

abbrev ceros : ℕ → List ℕ
ceros zero = []
ceros (suc n) = 0 ∷ ceros n

-- Every operation is refused.
abbrev pub negado : {D : Type 0} → Operaciones D
negado = record {
  o_create = negar;
  o_open = negar;
  o_read = λ path size offset d. ok (d, (negsuc 0, ceros size));
  o_read_dir = λ path d. ok (d, []);
  o_get_attr = λ path d. ok (d, []);
  o_mkdir = negar;
  o_unlink = negar;
  o_rmdir = negar;
  o_write = λ path size offset buf d. negar path d;
  o_truncate = λ path offset d. negar path d;
  o_rename = λ path nuevo d. negar path d;
}

abbrev un_servidor : Operaciones (List (List ℕ))
un_servidor = record negado { o_mkdir = λ path d. ok (path ∷ d, pos 0) }

abbrev pub cortar : List ℕ → ℕ → List ℕ
cortar [] n = []
cortar (x ∷ xs) zero = []
cortar (x ∷ xs) (suc n) = x ∷ cortar xs n

pub cortar_entero : (xs : List ℕ) → cortar xs (length xs) ≡ xs
cortar_entero [] = refl
cortar_entero (x ∷ xs) = ap (λ ys. x ∷ ys) (cortar_entero xs)

-- "/a"
abbrev ruta_a : List ℕ
ruta_a = 47 ∷ 97 ∷ []

hello-operacion_example :
    hello cortar un_servidor (negsuc 4) (mkdir ruta_a) (limpia [])
    ≡ ok (limpia (ruta_a ∷ []), pos 0)
unfolding cero_o
hello-operacion_example =
    hello-operacion cortar un_servidor (negsuc 4) (λ xs h. cortar_entero xs) none (mkdir ruta_a) []
      tt ((refl, (refl, tt)), omega arith) (omega arith)

hello_read-tras_leer_example :
    hello_read cortar un_servidor ruta_a 3 0 (limpia [])
    ≡ ok (atrasada (some (negsuc 0)) [], (3, 0 ∷ 0 ∷ 0 ∷ []))
hello_read-tras_leer_example =
    hello_read-tras_leer cortar un_servidor (λ xs h. cortar_entero xs) ruta_a 3 0 [] [] (negsuc 0)
      (0 ∷ 0 ∷ 0 ∷ []) ((refl, (refl, tt)), omega arith) (omega arith) (omega arith) (omega arith)
      refl refl

-- The directory is made, and the client is told that it was not.
hello_read-desfasada_example :
    (hello_read cortar un_servidor ruta_a 3 0 (limpia [])
      >>= λ (r : Conexion (List (List ℕ)) × (ℕ × List ℕ)).
          hello cortar un_servidor (negsuc 4) (mkdir ruta_a) r.0)
    ≡ ok (atrasada (some (pos 0)) (ruta_a ∷ []), negsuc 4)
unfolding cero_o
hello_read-desfasada_example =
    hello_read-desfasada cortar un_servidor (λ xs h. cortar_entero xs) (negsuc 4) ruta_a 3 0
      (mkdir ruta_a) [] [] (0 ∷ 0 ∷ 0 ∷ []) ((refl, (refl, tt)), omega arith) (omega arith)
      (omega arith) refl refl ((refl, (refl, tt)), omega arith) (omega arith)
