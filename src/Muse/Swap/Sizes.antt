-- ===== src/Muse/Swap/Sizes.antt =====
-- The size of a page stays while frames are taken (`asignarUnFrame` of Memoria/muse.c).
use linuse_tp_os.Base.{
  ℕ, ◌≡◌, refl, ◌∙◌, inl, inr, Bool, true, false, Option, none, some, if◌then◌else◌, Bool-cases,
  clave_nombre, clave_numero, ok, en_arreglo, Logra, Logra->>=, Logra-resto, Logra-desref,
  get_elem?, set, lookup,
}
use linuse_tp_os.Muse.Model.{Pagina, Muse}
use linuse_tp_os.Muse.Swap.{
  Lugar, buscar_pagina_asociada_a_frame, pagina_en, con_pagina, llevar_a_swap, elegir_frame,
  desalojar_frame, asignar_un_frame,
}
use linuse_tp_os.Muse.Clock.{clock_modificado}
use linuse_tp_os.Muse.Frames.{hay_frames_libres, buscar_indice_swap_libre}

abbrev IgualTam : Muse → Muse → Type 0
IgualTam m m' = m'.tam_pagina ≡ m.tam_pagina

llevar_a_swap-tam : (l : Lugar) (m : Muse) → Logra (IgualTam m) (llevar_a_swap l m)
unfolding llevar_a_swap con_pagina
llevar_a_swap-tam l m =
    let Q = IgualTam m in
    Logra-resto Q (pagina_en l m) _ λ pg a.
      Logra-resto Q (en_arreglo (buscar_indice_swap_libre m.bitmap_swap)) _ λ bit b.
        Logra->>= Q Q (con_pagina l _ m) _ (con_pagina-tam l _ m) λ m1 c t.
          Logra-desref Q pg.numero_frame _
            λ i d. Logra-desref Q (get_elem? m.bitmap_frames i) _ λ f e. t
  where
    con_pagina-tam : (l : Lugar) (pg : Pagina) (m : Muse) → Logra (IgualTam m) (con_pagina l pg m)
    con_pagina-tam l pg m =
        Logra-desref (IgualTam m) (lookup l.socket m.tablas_segmentos) _
          λ ss a. Logra-desref (IgualTam m) (get_elem? ss l.segmento) _ λ sg b. refl

desalojar_frame-tam : (i : ℕ) (m : Muse) → Logra (IgualTam m) (desalojar_frame i m)
unfolding desalojar_frame
desalojar_frame-tam i m = Logra-resto (IgualTam m) (buscar_pagina_asociada_a_frame i m) _ casos
  where
    casos :
        (o : Option Lugar)
        → buscar_pagina_asociada_a_frame i m ≡ ok o
        → Logra (IgualTam m) (elim o [ none ↦ ok m | some l ↦ llevar_a_swap l m ])
    casos none e = refl
    casos (some l) e = llevar_a_swap-tam l m

elegir_frame-tam : (m : Muse) → Logra (λ r. IgualTam m r.0) (elegir_frame m)
unfolding elegir_frame
elegir_frame-tam m = elim (Bool-cases (hay_frames_libres m.bitmap_frames)) [
  | inl e ↦ rw e refl
  | inr e ↦ rw e (
      Logra-resto (λ (r : Muse × Option ℕ × Bool). IgualTam m r.0)
        (clock_modificado m.cantidad_frames m.bitmap_frames m.puntero_clock) _ λ r a. refl)
]

pub asignar_un_frame-tam : (m : Muse) → Logra (λ r. IgualTam m r.0) (asignar_un_frame m)
unfolding asignar_un_frame
asignar_un_frame-tam m =
    let Q = λ (r : Muse × ℕ). IgualTam m r.0 in
    Logra->>= (λ (r : Muse × Option ℕ × Bool). IgualTam m r.0) Q (elegir_frame m) _
      (elegir_frame-tam m)
      λ (m1, o, hay) a t. Logra-desref Q o _ λ i b.
        Logra-desref Q (get_elem? m1.bitmap_frames i) _ λ f c.
          let m2 : Muse = record m1 {
            bitmap_frames =
                set m1.bitmap_frames i (record f { modificado = 1; uso = 1; esta_libre = false });
          } in
          Logra->>= (IgualTam m2) Q (if hay then desalojar_frame i m2 else ok m2) _
            (desalojado hay i m2) λ m3 d u. u ∙ t
  where
    desalojado :
        (b : Bool) (i : ℕ) (n : Muse) → Logra (IgualTam n) (if b then desalojar_frame i n else ok n)
    desalojado true i n = desalojar_frame-tam i n
    desalojado false i n = refl
