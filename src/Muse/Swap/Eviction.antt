-- ===== src/Muse/Swap/Eviction.antt =====
-- A page that is moved to swap (`llevarASwapUnaPagina` of Memoria/muse.c).
use linuse_tp_os.Base.{
  ℕ, zero, suc, ◌+◌, ◌<◌, ◌≡◌, refl, ap, ◌∙◌, Bool, true, false, none, some, List, [], ◌∷◌, arith,
  clave_nombre, clave_numero, ok, Garantiza, Garantiza->>=, length, get_elem?, set, length-set,
  get_elem?-set_self, get_elem?-some, get_elem?-lt, lookup, lookup-insert_self,
}
use linuse_tp_os.Muse.Model.{Frame, Pagina, Segmento, Muse}
use linuse_tp_os.Muse.Frames.{hay_frames_libres, buscar_bit_libre_desde, buscar_indice_swap_libre}
use linuse_tp_os.Muse.Swap.{
  Lugar, buscar_pagina_asociada_a_frame, pagina_en, con_pagina, llevar_a_swap, elegir_frame,
  desalojar_frame, asignar_un_frame,
}
use linuse_tp_os.Muse.Clock.{clock_modificado}

-- The page `pg` stands at the place `l`.
pub record EstaEn (l : Lugar) (pg : Pagina) (m : Muse) : Type 0 where
  pub segmentos : List Segmento
  pub segmento : Segmento
  pub proceso : lookup l.socket m.tablas_segmentos ≡ some segmentos
  pub en_proceso : get_elem? segmentos l.segmento ≡ some segmento
  pub en_segmento : get_elem? segmento.tabla_paginas l.pagina ≡ some pg

pagina_en_lem : (l : Lugar) (pg : Pagina) (m : Muse) → EstaEn l pg m → pagina_en l m ≡ ok pg
unfolding pagina_en
pagina_en_lem l pg m e = rw (e.proceso, e.en_proceso, e.en_segmento) refl

-- Another page is put at a place where there is one.
con_pagina-EstaEn :
    (l : Lugar) (pg pg' : Pagina) (m : Muse)
    → EstaEn l pg m
    → Garantiza
        (λ m'. EstaEn l pg' m' × (record m' { tablas_segmentos = m.tablas_segmentos } ≡ m))
        (con_pagina l pg' m)
unfolding con_pagina
con_pagina-EstaEn l pg pg' m e =
    let sg = e.segmento in
    let sg' = record sg { tabla_paginas = set sg.tabla_paginas l.pagina pg' } in
    rw (e.proceso, e.en_proceso)
      (
        record {
          segmentos = set e.segmentos l.segmento sg';
          segmento = sg';
          proceso = lookup-insert_self l.socket _ m.tablas_segmentos;
          en_proceso =
              get_elem?-set_self e.segmentos l.segmento sg'
                (get_elem?-lt e.segmentos l.segmento e.en_proceso);
          en_segmento =
              get_elem?-set_self sg.tabla_paginas l.pagina pg'
                (get_elem?-lt sg.tabla_paginas l.pagina e.en_segmento);
        },
        refl,
      )

-- The page is in swap at `bit`, and the frame `i` is free.
pub record Llevada (l : Lugar) (i bit : ℕ) (m m' : Muse) : Type 0 where
  pub en_swap : EstaEn l (record { presencia = 0; numero_frame = none; indice_swap = some bit }) m'
  pub frames :
      m'.bitmap_frames
      ≡ set m.bitmap_frames i (record { modificado = 0; uso = 0; esta_libre = true })
  pub swap : m'.bitmap_swap ≡ set m.bitmap_swap bit true
  pub puntero : m'.puntero_clock ≡ m.puntero_clock

-- The same, where the search found the index.
llevar_a_swap-hallado :
    (l : Lugar) (pg : Pagina) (i bit : ℕ) (f : Frame) (m : Muse)
    → EstaEn l pg m
    → pg.numero_frame ≡ some i
    → buscar_indice_swap_libre m.bitmap_swap ≡ some bit
    → get_elem? m.bitmap_frames i ≡ some f
    → Garantiza (Llevada l i bit m) (llevar_a_swap l m)
unfolding llevar_a_swap
llevar_a_swap-hallado l pg i bit f m e n b g =
    let pg' = record pg { presencia = 0; numero_frame = none; indice_swap = some bit } in
    rw (pagina_en_lem l pg m e, b)
      (Garantiza->>= _ (Llevada l i bit m) (con_pagina l pg' m) _ (con_pagina-EstaEn l pg pg' m e)
        λ m' _ k.
          rw (n, g)
            (record {
              en_swap = record {
                segmentos = k.0.segmentos;
                segmento = k.0.segmento;
                proceso = k.0.proceso;
                en_proceso = k.0.en_proceso;
                en_segmento = k.0.en_segmento;
              };
              frames = refl;
              swap = refl;
              puntero = ap (λ (z : Muse). z.puntero_clock) k.1;
            }))

-- The bits before `bit` are set, and it is not.
abbrev pub PrimerLibre : List Bool → ℕ → Type 0
PrimerLibre bs bit =
    (get_elem? bs bit ≡ some false) × ((j : ℕ) → j < bit → get_elem? bs j ≡ some true)

buscar_bit_libre_desde-PrimerLibre :
    (k : ℕ) (bs : List Bool) (bit : ℕ)
    → PrimerLibre bs bit
    → buscar_bit_libre_desde k bs ≡ some (k + bit)
unfolding buscar_bit_libre_desde
buscar_bit_libre_desde-PrimerLibre k [] bit (e, h) = cc
buscar_bit_libre_desde-PrimerLibre k (false ∷ bs) zero (e, h) = ap some (omega arith)
buscar_bit_libre_desde-PrimerLibre k (false ∷ bs) (suc bit) (e, h) =
    absurd (let x = h 0 (omega arith) in cc)
buscar_bit_libre_desde-PrimerLibre k (true ∷ bs) zero (e, h) = cc
buscar_bit_libre_desde-PrimerLibre k (true ∷ bs) (suc bit) (e, h) =
    buscar_bit_libre_desde-PrimerLibre (suc k) bs bit (e, λ j l. h (suc j) (omega arith))
    ∙ ap some (omega arith)

-- `llevarASwapUnaPagina` of a page that is in the frame `i`, where the bit `bit` of swap is free and
-- those before it are not: it ends, the page is then out of memory and at that index of swap, whose bit
-- is set; the frame is marked free, not used and not modified; other frames, other bits and the clock's
-- pointer are kept.
pub llevar_a_swap-Llevada :
    (l : Lugar) (pg : Pagina) (i bit : ℕ) (f : Frame) (m : Muse)
    → EstaEn l pg m
    → pg.numero_frame ≡ some i
    → PrimerLibre m.bitmap_swap bit
    → get_elem? m.bitmap_frames i ≡ some f
    → Garantiza (Llevada l i bit m) (llevar_a_swap l m)
unfolding buscar_indice_swap_libre
llevar_a_swap-Llevada l pg i bit f m e n b g =
    llevar_a_swap-hallado l pg i bit f m e n
      (buscar_bit_libre_desde-PrimerLibre 0 m.bitmap_swap bit b ∙ ap some (omega arith)) g

-- The frame that `asignarUnFrame` returns is the clock's choice, and is marked free.
pub record Reemplazo (i : ℕ) (m' : Muse) (j : ℕ) : Type 0 where
  pub elegido : j ≡ i
  pub libre :
      get_elem? m'.bitmap_frames i ≡ some (record { modificado = 0; uso = 0; esta_libre = true })

-- Where no frame is free, the clock chooses the frame `i`, and a page is found in it that is in that
-- frame, with a free index of swap: `asignarUnFrame` ends and returns `i`, and leaves it marked free
-- although it is about to be used.
pub asignar_un_frame-Reemplazo :
    (m : Muse) (i q : ℕ) (gs : List Frame) (l : Lugar) (pg : Pagina) (bit : ℕ)
    → hay_frames_libres m.bitmap_frames ≡ false
    → clock_modificado m.cantidad_frames m.bitmap_frames m.puntero_clock ≡ ok (some i, gs, q)
    → i < length gs
    → buscar_pagina_asociada_a_frame i (record m {
      bitmap_frames = set gs i (record { modificado = 1; uso = 1; esta_libre = false });
      puntero_clock = q;
    })
      ≡ ok (some l)
    → EstaEn l pg m
    → pg.numero_frame ≡ some i
    → buscar_indice_swap_libre m.bitmap_swap ≡ some bit
    → Garantiza (λ r. Reemplazo i r.0 r.1) (asignar_un_frame m)
unfolding asignar_un_frame elegir_frame desalojar_frame
asignar_un_frame-Reemplazo m i q gs l pg bit h c n b e x s =
    let tomado : Frame = record { modificado = 1; uso = 1; esta_libre = false } in
    let (f, g) = get_elem?-some gs i n in
    let m2 = record m { bitmap_frames = set gs i tomado; puntero_clock = q } in
    rw (h, c, g, b)
      (Garantiza->>= (Llevada l i bit m2) (λ r. Reemplazo i r.0 r.1) (llevar_a_swap l m2) _
        (llevar_a_swap-hallado l pg i bit tomado m2
          (record {
            segmentos = e.segmentos;
            segmento = e.segmento;
            proceso = e.proceso;
            en_proceso = e.en_proceso;
            en_segmento = e.en_segmento;
          })
          x s (get_elem?-set_self gs i tomado n))
        λ m3 _ k. (record {
          elegido = refl;
          libre =
              ap (λ z. get_elem? z i) k.frames
              ∙ get_elem?-set_self (set gs i tomado) i _ (rw (length-set gs i tomado) n);
        }))
