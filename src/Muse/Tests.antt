-- ===== src/Muse/Tests.antt =====
-- Concrete frames on which the replacement of Memoria/muse.c runs.
pub mod Segments
pub mod Heap
use linuse_tp_os.Base.{
  ℕ, zero, suc, ◌≤◌, ◌<◌, ◌≡◌, refl, subst, true, false, none, some, List, [], ◌∷◌, arith,
  clave_nombre, clave_numero, Garantiza, get_elem?, lookup,
}
use linuse_tp_os.Muse.Model.{Frame, Pagina, Segmento, Muse}
use linuse_tp_os.Muse.Frames.{
  buscar_libre_desde, buscar_frame_libre, hay_frames_libres, buscar_bit_libre_desde,
  buscar_indice_swap_libre,
}
use linuse_tp_os.Muse.Frames.Search.{PrimeroLibre, buscar_frame_libre-PrimeroLibre}
use linuse_tp_os.Muse.Clock.{
  incrementar_puntero, cumple, apagar, recorrer, si_no_hay, clock_modificado,
}
use linuse_tp_os.Muse.Clock.Choice.{Elige, clock_modificado-Elige}
use linuse_tp_os.Muse.Swap.{
  Lugar, esta_en_frame, buscar_en_paginas, buscar_en_segmentos, buscar_en_procesos,
  buscar_pagina_asociada_a_frame, llevar_a_swap, asignar_un_frame,
}
use linuse_tp_os.Muse.Swap.Eviction.{
  EstaEn, Llevada, llevar_a_swap-Llevada, Reemplazo, asignar_un_frame-Reemplazo,
}
use linuse_tp_os.Muse.Swap.Taking.{Ocupado, asignar_un_frame-Ocupado}
use linuse_tp_os.Muse.Swap.Eviction.{
  EstaEn, Llevada, llevar_a_swap-Llevada, Reemplazo, asignar_un_frame-Reemplazo,
}

-- Three frames in use, the second of which is modified only.
abbrev ocupados : List Frame
ocupados =
    record { modificado = 1; uso = 1; esta_libre = false }
    ∷ record { modificado = 1; uso = 0; esta_libre = false }
    ∷ record { modificado = 0; uso = 1; esta_libre = false }
    ∷ []

abbrev con_libre : List Frame
con_libre =
    record { modificado = 1; uso = 1; esta_libre = false }
    ∷ record { modificado = 0; uso = 0; esta_libre = true }
    ∷ record { modificado = 0; uso = 0; esta_libre = true }
    ∷ []

abbrev memoria : Muse
memoria = record {
  cantidad_frames = 3;
  puntero_clock = 0;
  bitmap_frames = con_libre;
  bitmap_swap = false ∷ false ∷ [];
  tablas_segmentos = [];
  client_socket = [];
  tam_pagina = 32;
}

abbrev SonBits : List Frame → Type 0
SonBits fs = (j : ℕ) (f : Frame) → get_elem? fs j ≡ some f → f.modificado ≤ 1

bit_igual : (f g : Frame) → some f ≡ some g → f.modificado ≤ 1 → g.modificado ≤ 1
bit_igual f g e h = let y : f ≡ g = cc in subst (λ z. z.modificado ≤ 1) y h

ocupados-SonBits : SonBits ocupados
ocupados-SonBits zero f e = bit_igual _ f e (omega arith)
ocupados-SonBits (suc zero) f e = bit_igual _ f e (omega arith)
ocupados-SonBits (suc (suc zero)) f e = bit_igual _ f e (omega arith)
ocupados-SonBits (suc (suc (suc j))) f e = cc

clock_modificado-Elige_example : Garantiza (Elige 3 ocupados 2) (clock_modificado 3 ocupados 2)
clock_modificado-Elige_example =
    clock_modificado-Elige 3 2 ocupados refl (omega arith) ocupados-SonBits

buscar_frame_libre-PrimeroLibre_example : PrimeroLibre con_libre (buscar_frame_libre con_libre)
buscar_frame_libre-PrimeroLibre_example = buscar_frame_libre-PrimeroLibre con_libre

asignar_un_frame-Ocupado_example :
    Garantiza (λ r. Ocupado memoria r.0 r.1) (asignar_un_frame memoria)
unfolding hay_frames_libres buscar_frame_libre buscar_libre_desde
asignar_un_frame-Ocupado_example = asignar_un_frame-Ocupado memoria refl

-- A process at socket 4 with one page, which is in the frame 0.
abbrev una_pagina : Pagina
una_pagina = record { presencia = 1; numero_frame = some 0; indice_swap = none }

abbrev un_segmento : Segmento
un_segmento = record {
  es_comun = true;
  file_path = none;
  id = 0;
  base_logica = 0;
  tamanio = 32;
  tabla_paginas = una_pagina ∷ [];
  paginas_liberadas = 0;
  metadatas = [];
}

abbrev con_pagina_en_0 : Muse
con_pagina_en_0 = record memoria {
  bitmap_frames = ocupados;
  bitmap_swap = true ∷ false ∷ [];
  tablas_segmentos = (4, un_segmento ∷ []) ∷ [];
}

abbrev lugar : Lugar
lugar = record { socket = 4; segmento = 0; pagina = 0 }

lugar-EstaEn : EstaEn lugar una_pagina con_pagina_en_0
unfolding lookup
lugar-EstaEn = record {
  segmentos = un_segmento ∷ [];
  segmento = un_segmento;
  proceso = refl;
  en_proceso = refl;
  en_segmento = refl;
}

llevar_a_swap-Llevada_example :
    Garantiza (Llevada lugar 0 1 con_pagina_en_0) (llevar_a_swap lugar con_pagina_en_0)
llevar_a_swap-Llevada_example =
    llevar_a_swap-Llevada lugar una_pagina 0 1
      (record { modificado = 1; uso = 1; esta_libre = false }) con_pagina_en_0 lugar-EstaEn refl
      (refl, primero) refl
  where
    primero : (j : ℕ) → j < 1 → get_elem? con_pagina_en_0.bitmap_swap j ≡ some true
    primero zero l = refl
    primero (suc j) l = absurd (omega arith)

-- One frame, in use, and the page that is in it.
abbrev un_frame : Muse
un_frame = record con_pagina_en_0 {
  cantidad_frames = 1;
  bitmap_frames = record { modificado = 1; uso = 1; esta_libre = false } ∷ [];
  client_socket = 4 ∷ [];
}

un_frame-EstaEn : EstaEn lugar una_pagina un_frame
unfolding lookup
un_frame-EstaEn = record {
  segmentos = un_segmento ∷ [];
  segmento = un_segmento;
  proceso = refl;
  en_proceso = refl;
  en_segmento = refl;
}

asignar_un_frame-Reemplazo_example :
    Garantiza (λ r. Reemplazo 0 r.0 r.1) (asignar_un_frame un_frame)
unfolding hay_frames_libres buscar_frame_libre buscar_libre_desde clock_modificado recorrer
    si_no_hay cumple apagar incrementar_puntero buscar_pagina_asociada_a_frame buscar_en_procesos
    buscar_en_segmentos buscar_en_paginas esta_en_frame lookup buscar_indice_swap_libre
    buscar_bit_libre_desde
asignar_un_frame-Reemplazo_example =
    asignar_un_frame-Reemplazo un_frame 0 0
      (record { modificado = 1; uso = 0; esta_libre = false } ∷ []) lugar una_pagina 1 refl refl
      (omega arith) refl un_frame-EstaEn refl refl
