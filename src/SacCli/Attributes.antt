-- ===== src/SacCli/Attributes.antt =====
-- `hello_getattr` of Sac-Cli/sacCli.c over `o_getAttr` of Sac-Server/operaciones.c.
use mathlib.Core.List.{append-nil}
use linuse_tp_os.Base.{
  ℕ, suc, ◌+◌, ◌^◌, ◌<◌, ◌≡◌, refl, ◌≢◌, ◌⊎◌, inl, inr, false, some, List, [], ◌++◌, arith, ◌==◌,
  ==_iff, Bool-cases, iguales, pos, Resultado, ok, ◌>>=◌, Resultado-cases, get_elem?,
}
use linuse_tp_os.Wire.{campo, campo_int, limpia, intercambiar}
use linuse_tp_os.Wire.Bytes.{leer_campo_int-campo_int, leer_campo_int_final}
use linuse_tp_os.Sac.Model.{Archivo, Disco}
use linuse_tp_os.Sac.Attributes.{
  permisos_de, enlaces_de, tamanio_de, fecha_de, envio_atributos, o_get_attr, operaciones_de,
}
use linuse_tp_os.Sac.Paths.{ningun_nodo, dame_nodo_de}
use linuse_tp_os.Sac.Nodes.{indice_de}
use linuse_tp_os.Sac.Connection.{Operaciones, leer_ruta, tomar_peticion_que_envia, despachar}
use linuse_tp_os.SacCli.Remote.{IsRuta, IsCorte, leer_ruta-campo, socket_thread-campo_int}
use linuse_tp_os.SacCli.{
  Stat, pedido_con_ruta, raiz, leer_stat, leer_stat_con_fechas, enviar, hello_getattr,
}

-- The attributes of a node, as FUSE is told them.
abbrev pub atributos_de : ℕ → Archivo → Stat
atributos_de ahora f = record {
  st_mode = permisos_de f;
  st_nlink = enlaces_de f;
  st_size = tamanio_de f;
  st_mtime = fecha_de f f.fecha_modificacion;
  st_ctime = fecha_de f f.fecha_creacion;
  st_atime = fecha_de f ahora;
}

-- What FUSE is to be told of a node: a directory (2, S_IFDIR) has two links and 4096 bytes, a file
-- (1, S_IFREG) one link and its own size, both with all permissions, and a node that is neither nothing.
abbrev pub Atributos : ℕ → Archivo → Stat → Type 0
Atributos ahora f st =
    ((f.estado ≡ 2)
      × (st ≡ record {
        st_mode = 16384 + 511;
        st_nlink = 2;
        st_size = 4096;
        st_mtime = f.fecha_modificacion;
        st_ctime = f.fecha_creacion;
        st_atime = ahora;
      }))
    ⊎ ((f.estado ≡ 1)
        × (st ≡ record {
          st_mode = 32768 + 511;
          st_nlink = 1;
          st_size = f.tamanio_archivo;
          st_mtime = f.fecha_modificacion;
          st_ctime = f.fecha_creacion;
          st_atime = ahora;
        }))
    ⊎ ((f.estado ≢ 1)
        × (f.estado ≢ 2)
        × (st ≡ record {
          st_mode = 0;
          st_nlink = 0;
          st_size = 0;
          st_mtime = 0;
          st_ctime = 0;
          st_atime = 0;
        }))

distinto : (a b : ℕ) → (a == b) ≡ false → a ≢ b
distinto a b h e = ground (arith, ==_iff a b)

atributos_de-Atributos : (ahora : ℕ) (f : Archivo) → Atributos ahora f (atributos_de ahora f)
atributos_de-Atributos ahora f = elim (Bool-cases (f.estado == 2)) [
  | inl b ↦ inl ((==_iff f.estado 2).0 b, rw b refl)
  | inr b ↦ elim (Bool-cases (f.estado == 1)) [
    | inl c ↦ inr (inl ((==_iff f.estado 1).0 c, rw (b, c) refl))
    | inr c ↦ inr (inr (distinto f.estado 1 c, distinto f.estado 2 b, rw (b, c) refl))
  ]
]

abbrev pub EnInt : ℕ → Archivo → Type 0
EnInt ahora f =
    (f.tamanio_archivo < 2 ^ 32)
    × (f.fecha_modificacion < 2 ^ 32)
    × (f.fecha_creacion < 2 ^ 32)
    × (ahora < 2 ^ 32)

permisos_caben : (f : Archivo) → permisos_de f < 2 ^ 32
permisos_caben f = ground arith

enlaces_caben : (f : Archivo) → enlaces_de f < 2 ^ 32
enlaces_caben f = ground arith

tamanio_cabe : (f : Archivo) → f.tamanio_archivo < 2 ^ 32 → tamanio_de f < 2 ^ 32
tamanio_cabe f h = ground arith

fecha_cabe : (f : Archivo) (n : ℕ) → n < 2 ^ 32 → fecha_de f n < 2 ^ 32
fecha_cabe f n h = ground arith

leer_stat-envio :
    (ahora : ℕ) (f : Archivo) (stbuf : Stat)
    → EnInt ahora f
    → leer_stat_con_fechas stbuf (
        campo_int (permisos_de f)
        ++ (campo_int (enlaces_de f)
            ++ (campo_int (tamanio_de f)
                ++ (campo_int (fecha_de f f.fecha_modificacion)
                    ++ (campo_int (fecha_de f f.fecha_creacion) ++ campo_int (fecha_de f ahora))))))
      ≡ ok (atributos_de ahora f, [])
unfolding leer_stat_con_fechas leer_stat
leer_stat-envio ahora f stbuf h = rw (
  leer_campo_int-campo_int (permisos_de f) _ (permisos_caben f),
  leer_campo_int-campo_int (enlaces_de f) _ (enlaces_caben f),
  leer_campo_int-campo_int (tamanio_de f) _ (tamanio_cabe f h.0),
  leer_campo_int-campo_int (fecha_de f f.fecha_modificacion) _
      (fecha_cabe f f.fecha_modificacion h.1),
  leer_campo_int-campo_int (fecha_de f f.fecha_creacion) _ (fecha_cabe f f.fecha_creacion h.2),
  leer_campo_int_final (fecha_de f ahora) (fecha_cabe f ahora h.3),
)

module _ (string_substring_until : List ℕ → ℕ → List ℕ) (ahora : ℕ) (resto : Operaciones Disco)
    (corte : IsCorte string_substring_until) where
  -- A request whose operation sends its answer.
  pub que_envia :
      (n : ℕ) (op : List ℕ → Disco → Resultado (Disco × List ℕ)) (path : List ℕ) (d : Disco)
      → n < 2 ^ 32
      → ((e : List ℕ)
          → despachar string_substring_until (operaciones_de ahora resto) n e d
            ≡ tomar_peticion_que_envia string_substring_until (operaciones_de ahora resto) op e d)
      → IsRuta path
      → enviar string_substring_until
          (operaciones_de ahora resto)
          (pedido_con_ruta n path)
          (limpia d)
        ≡ (op path d >>= λ (r : Disco × List ℕ).
            ok (record { pendiente = r.1; por_atender = []; servidor = r.0 }))
  unfolding pedido_con_ruta enviar intercambiar tomar_peticion_que_envia
  que_envia n op path d l f h =
      let leida : leer_ruta string_substring_until (campo path) ≡ ok (path, []) =
        rw append-nil at
          (leer_ruta-campo string_substring_until (operaciones_de ahora resto) corte path [] h) in
      rw
        (
          socket_thread-campo_int string_substring_until (operaciones_de ahora resto) corte n
              (campo path) d l,
          f (campo path),
          leida,
        )
        (elim (Resultado-cases (op path d)) [ inl (a, e) ↦ rw e | inr (x, e) ↦ rw e ])

  -- The attributes that the server computes reach FUSE.
  hello_getattr-envio :
      (path : List ℕ) (i : ℕ) (f : Archivo) (stbuf : Stat) (d : Disco)
      → IsRuta path
      → iguales path raiz ≡ false
      → dame_nodo_de path d.tabla ≡ ok (suc i)
      → (suc i == ningun_nodo) ≡ false
      → get_elem? d.tabla i ≡ some f
      → EnInt ahora f
      → hello_getattr string_substring_until (operaciones_de ahora resto) path stbuf (limpia d)
        ≡ ok (limpia d, (pos 0, atributos_de ahora f))
  unfolding hello_getattr despachar operaciones_de o_get_attr indice_de envio_atributos
  hello_getattr-envio path i f stbuf d h no_raiz n no_falta e k = rw (
    no_raiz,
    que_envia 5 (o_get_attr ahora) path d (omega arith) (λ e. refl) h,
    n,
    no_falta,
    no_raiz,
    e,
    leer_campo_int-campo_int 0 _ (omega arith),
    leer_stat-envio ahora f stbuf k,
  )

  -- `hello_getattr` of a path other than "/" that is found, over a connection where nothing waits, with
  -- sizes and times that fit into 32 bits: it answers 0, changes nothing, and FUSE is told of a directory
  -- two links and 4096 bytes, of a file one link and its size, of both all permissions, the times of the
  -- node and the present time as that of access, and of a node that is neither only zeros.
  pub hello_getattr-Atributos :
      (path : List ℕ) (i : ℕ) (f : Archivo) (stbuf : Stat) (d : Disco)
      → IsRuta path
      → iguales path raiz ≡ false
      → dame_nodo_de path d.tabla ≡ ok (suc i)
      → (suc i == ningun_nodo) ≡ false
      → get_elem? d.tabla i ≡ some f
      → EnInt ahora f
      → (st : Stat) × Atributos ahora f st
        × (hello_getattr string_substring_until (operaciones_de ahora resto) path stbuf (limpia d)
            ≡ ok (limpia d, (pos 0, st)))
  hello_getattr-Atributos path i f stbuf d h no_raiz n no_falta e k = (
    atributos_de ahora f,
    atributos_de-Atributos ahora f,
    hello_getattr-envio path i f stbuf d h no_raiz n no_falta e k,
  )
