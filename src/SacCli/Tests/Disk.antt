-- ===== src/SacCli/Tests/Disk.antt =====
-- Attributes and names over a small disk.
use linuse_tp_os.Base.{ℕ, ◌≡◌, refl, inl, List, [], ◌∷◌, arith, pos, ok}
use linuse_tp_os.Wire.{limpia}
use linuse_tp_os.Sac.Model.{Disco}
use linuse_tp_os.Sac.Connection.{Operaciones}
use linuse_tp_os.Sac.Attributes.{operaciones_de}
use linuse_tp_os.Sac.Tests.{disco, un_nodo, nodos, ruta_b, ruta_b-nodo}
use linuse_tp_os.SacCli.{Stat, hello_readdir, hello_getattr}
use linuse_tp_os.SacCli.Listing.{vacio, nombrado, de_otro, hello_readdir-Listado}
use linuse_tp_os.SacCli.Attributes.{Atributos, hello_getattr-Atributos}
use linuse_tp_os.Sac.Paths.{
  ultimo, sin_ultimo, nombre_de, primeros, sin_barra, dividir_ruta, buscar_nodo, dame_nodo_con,
  dame_nodo_de,
}
use linuse_tp_os.SacCli.Tests.{negado, cortar, cortar_entero}
use linuse_tp_os.SacCli.Remote.{IsRuta}

abbrev las_demas : Operaciones Disco
las_demas = negado

abbrev con_nodos : Disco
con_nodos = record disco { tabla = nodos }

abbrev sin_atributos : Stat
sin_atributos = record {
  st_mode = 0;
  st_nlink = 0;
  st_size = 0;
  st_mtime = 0;
  st_ctime = 0;
  st_atime = 0;
}

ruta_b-IsRuta : IsRuta ruta_b
ruta_b-IsRuta = ((refl, (refl, (refl, (refl, tt)))), omega arith)

-- The file /a/b at time 9.
hello_getattr-Atributos_example :
    (st : Stat) × Atributos 9 (un_nodo 1 (98 ∷ []) 1) st
    × (hello_getattr cortar (operaciones_de 9 las_demas) ruta_b sin_atributos (limpia con_nodos)
        ≡ ok (limpia con_nodos, (pos 0, st)))
hello_getattr-Atributos_example =
    hello_getattr-Atributos cortar 9 las_demas (λ xs h. cortar_entero xs) ruta_b 1
      (un_nodo 1 (98 ∷ []) 1) sin_atributos con_nodos ruta_b-IsRuta refl ruta_b-nodo refl refl
      (omega arith, omega arith, omega arith, omega arith)

abbrev entera : List ℕ → List (List ℕ)
entera texto = texto ∷ []

abbrev ruta_a : List ℕ
ruta_a = 47 ∷ 97 ∷ []

ruta_a-nodo : dame_nodo_de ruta_a nodos ≡ ok 1
unfolding dame_nodo_de dame_nodo_con dividir_ruta sin_barra nombre_de primeros ultimo sin_ultimo
    buscar_nodo
ruta_a-nodo = refl

-- The directory /a has the file "b", and the listing is a ";" for each node of the table.
hello_readdir-Listado_example :
    hello_readdir cortar (operaciones_de 9 las_demas) entera ruta_a (limpia con_nodos)
    ≡ ok (limpia con_nodos, (pos 0, (59 ∷ 98 ∷ 59 ∷ 59 ∷ []) ∷ []))
hello_readdir-Listado_example =
    hello_readdir-Listado cortar 9 las_demas (λ xs h. cortar_entero xs) entera ruta_a 1 con_nodos
      (59 ∷ 98 ∷ 59 ∷ 59 ∷ []) ((refl, (refl, tt)), omega arith) ruta_a-nodo
      ((refl, tt), ((refl, tt), (tt, tt)))
      (de_otro (λ e. omega (arith, e))
        (nombrado refl (inl refl) (de_otro (λ e. omega (arith, e)) vacio)))
      (omega arith)
