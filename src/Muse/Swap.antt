-- ===== src/Muse/Swap.antt =====
-- Pages that move between frames and swap: `buscarPaginaAsociadaAFrame`, `llevarASwapUnaPagina`,
-- `asignarUnFrame` and `traerAMemoriaPrincipal`, of Memoria/muse.c. A page is found by its place: the
-- socket, and the indices of the segment and of the page.
pub mod Taking
pub mod Sizes
pub mod Eviction
use linuse_tp_os.Base.{
  ℕ, zero, suc, Bool, true, false, Option, none, some, List, [], ◌∷◌, ◌==◌, if◌then◌else◌,
  clave_nombre, clave_numero, Resultado, ok, ◌>>=◌, desref, en_arreglo, length, get_elem?, set,
  Dict, lookup, insert,
}
use linuse_tp_os.Muse.Model.{Pagina, Segmento, Muse}
use linuse_tp_os.Muse.Frames.{buscar_frame_libre, hay_frames_libres, buscar_indice_swap_libre}
use linuse_tp_os.Muse.Clock.{clock_modificado}

pub record Lugar : Type 0 where
  pub socket : ℕ
  pub segmento : ℕ
  pub pagina : ℕ

-- `numeroFrame == indiceFrame`.
unfoldable pub esta_en_frame : ℕ → Pagina → Bool
esta_en_frame i pg = elim pg.numero_frame [ none ↦ false | some j ↦ j == i ]

-- The three loops of `buscarPaginaAsociadaAFrame`, each from an index over the rest.
unfoldable pub buscar_en_paginas : ℕ → ℕ → ℕ → ℕ → List Pagina → Option Lugar
unfolding esta_en_frame
buscar_en_paginas i socket j k [] = none
buscar_en_paginas i socket j k (pg ∷ resto) =
    if esta_en_frame i pg
    then some (record { socket = socket; segmento = j; pagina = k })
    else buscar_en_paginas i socket j (suc k) resto

unfoldable pub buscar_en_segmentos : ℕ → ℕ → ℕ → List Segmento → Option Lugar
unfolding buscar_en_paginas
buscar_en_segmentos i socket j [] = none
buscar_en_segmentos i socket j (sg ∷ resto) =
    elim (buscar_en_paginas i socket j 0 sg.tabla_paginas) [
      | some l ↦ some l
      | none ↦ buscar_en_segmentos i socket (suc j) resto
    ]

unfoldable pub buscar_en_procesos :
    ℕ → ℕ → ℕ → List ℕ → Dict ℕ (List Segmento) → Resultado (Option Lugar)
unfolding buscar_en_segmentos
buscar_en_procesos i zero n sockets tablas = ok none
buscar_en_procesos i (suc faltan) n sockets tablas = do
  socket ← en_arreglo (get_elem? sockets n)
  segmentos ← desref (lookup socket tablas)
  let resto = buscar_en_procesos i faltan (suc n) sockets tablas
  elim (buscar_en_segmentos i socket 0 segmentos) [ some l ↦ ok (some l) | none ↦ resto ]

unfoldable pub buscar_pagina_asociada_a_frame : ℕ → Muse → Resultado (Option Lugar)
unfolding buscar_en_procesos
buscar_pagina_asociada_a_frame i m =
    buscar_en_procesos i (length m.tablas_segmentos) 0 m.client_socket m.tablas_segmentos

-- The page at a place, and the state with another in its stead.
unfoldable pub pagina_en : Lugar → Muse → Resultado Pagina
pagina_en l m = do
  segmentos ← desref (lookup l.socket m.tablas_segmentos)
  sg ← desref (get_elem? segmentos l.segmento)
  desref (get_elem? sg.tabla_paginas l.pagina)

unfoldable pub con_pagina : Lugar → Pagina → Muse → Resultado Muse
con_pagina l pg m = do
  segmentos ← desref (lookup l.socket m.tablas_segmentos)
  sg ← desref (get_elem? segmentos l.segmento)
  let sg' = record sg { tabla_paginas = set sg.tabla_paginas l.pagina pg }
  ok (record m {
    tablas_segmentos = insert l.socket (set segmentos l.segmento sg') m.tablas_segmentos;
  })

-- `llevarASwapUnaPagina`. With no free bit, `bitarray_set_bit` is called with -1. The page moved is in
-- a frame: -1 is no index of the list of frames.
unfoldable pub llevar_a_swap : Lugar → Muse → Resultado Muse
unfolding pagina_en con_pagina buscar_indice_swap_libre
llevar_a_swap l m = do
  pg ← pagina_en l m
  bit ← en_arreglo (buscar_indice_swap_libre m.bitmap_swap)
  m' ← con_pagina l (record pg { presencia = 0; numero_frame = none; indice_swap = some bit }) m
  i ← desref pg.numero_frame
  f ← desref (get_elem? m.bitmap_frames i)
  let f' = record f { modificado = 0; uso = 0; esta_libre = true }
  ok (record m' {
    bitmap_swap = set m.bitmap_swap bit true;
    bitmap_frames = set m.bitmap_frames i f';
  })

-- The frame that `asignarUnFrame` takes, and whether a page must leave it.
unfoldable pub elegir_frame : Muse → Resultado (Muse × Option ℕ × Bool)
unfolding hay_frames_libres buscar_frame_libre clock_modificado
elegir_frame m =
    if hay_frames_libres m.bitmap_frames
    then ok (m, buscar_frame_libre m.bitmap_frames, false)
    else (do
      (i, fs, p) ← clock_modificado m.cantidad_frames m.bitmap_frames m.puntero_clock
      ok (record m { bitmap_frames = fs; puntero_clock = p }, i, true))

-- The page that was in the frame leaves it, where a process has one there.
unfoldable pub desalojar_frame : ℕ → Muse → Resultado Muse
unfolding buscar_pagina_asociada_a_frame llevar_a_swap
desalojar_frame i m = do
  o ← buscar_pagina_asociada_a_frame i m
  elim o [ none ↦ ok m | some l ↦ llevar_a_swap l m ]

-- `asignarUnFrame`. `list_get` of -1 is NULL, and is dereferenced.
unfoldable pub asignar_un_frame : Muse → Resultado (Muse × ℕ)
unfolding elegir_frame desalojar_frame
asignar_un_frame m = do
  (m1, o, hay_que_swappear) ← elegir_frame m
  i ← desref o
  f ← desref (get_elem? m1.bitmap_frames i)
  let f' = record f { modificado = 1; uso = 1; esta_libre = false }
  let m2 = record m1 { bitmap_frames = set m1.bitmap_frames i f' }
  m3 ← (if hay_que_swappear then desalojar_frame i m2 else ok m2)
  ok (m3, i)

-- `traerAMemoriaPrincipal`, with the frame that it returns. The page is in swap.
unfoldable pub traer_a_memoria_principal : Lugar → Muse → Resultado (Muse × ℕ)
unfolding pagina_en con_pagina asignar_un_frame
traer_a_memoria_principal l m = do
  pg ← pagina_en l m
  bit ← en_arreglo pg.indice_swap
  (m1, i) ← asignar_un_frame m
  f ← desref (get_elem? m1.bitmap_frames i)
  m2 ← con_pagina l (record pg { presencia = 1; numero_frame = some i; indice_swap = none }) m1
  ok (
    record m2 {
      bitmap_swap = set m1.bitmap_swap bit false;
      bitmap_frames = set m1.bitmap_frames i (record f { modificado = 0; uso = 1 });
    },
    i,
  )
