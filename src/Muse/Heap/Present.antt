-- ===== src/Muse/Heap/Present.antt =====
-- The operations on a segment whose pages are in memory (Memoria/muse.c).
use linuse_tp_os.Base.{
  ℕ, zero, suc, ◌*◌, ◌≡◌, refl, ap, Bool, false, some, List, [], ◌∷◌, ◌++◌, ok, get_elem?, set,
  get_elem?-set_self, get_elem?-lt,
}
use linuse_tp_os.Muse.Model.{Frame, Segmento, Muse}
use linuse_tp_os.Muse.Heap.{
  Sitio, Obra, segmento_en, con_segmento, posicion_pagina, marcar_tomado, pagina_nueva,
  agregar_pagina, queda_partida, heap_en, usar_frame_de, agregar_metadata, ubicar_metadata,
}
use linuse_tp_os.Muse.Swap.{elegir_frame, asignar_un_frame}
use linuse_tp_os.Muse.Frames.{buscar_frame_libre, hay_frames_libres}

-- A frame that was taken for a page.
abbrev pub tomado : Frame
tomado = record { modificado = 1; uso = 1; esta_libre = false }

set_self {ℓ} :
    {A : Type ℓ} (xs : List A) (i : ℕ) (x : A) → get_elem? xs i ≡ some x → set xs i x ≡ xs
set_self [] i x e = refl
set_self (y ∷ xs) zero x e = cc
set_self (y ∷ xs) (suc i) x e = ap (λ ys. y ∷ ys) (set_self xs i x e)

pub asignar_un_frame-libre :
    (m : Muse) (i : ℕ) (f : Frame)
    → buscar_frame_libre m.bitmap_frames ≡ some i
    → get_elem? m.bitmap_frames i ≡ some f
    → asignar_un_frame m ≡ ok (record m { bitmap_frames = set m.bitmap_frames i tomado }, i)
unfolding asignar_un_frame elegir_frame hay_frames_libres
asignar_un_frame-libre m i f e g = rw (e, g)

marcar_tomado-tomado :
    (m : Muse) (i : ℕ) → get_elem? m.bitmap_frames i ≡ some tomado → marcar_tomado i m ≡ ok m
unfolding marcar_tomado
marcar_tomado-tomado m i e =
    rw e (ap (λ fs. ok (record m { bitmap_frames = fs })) (set_self m.bitmap_frames i tomado e))

pub agregar_pagina-libre :
    (m : Muse) (s : Sitio) (i : ℕ) (f : Frame) (sg : Segmento)
    → buscar_frame_libre m.bitmap_frames ≡ some i
    → get_elem? m.bitmap_frames i ≡ some f
    → segmento_en (record m { bitmap_frames = set m.bitmap_frames i tomado }, s) ≡ ok sg
    → agregar_pagina (m, s)
      ≡ con_segmento
          (record sg { tabla_paginas = sg.tabla_paginas ++ pagina_nueva i ∷ [] })
          (record m { bitmap_frames = set m.bitmap_frames i tomado }, s)
unfolding agregar_pagina
agregar_pagina-libre m s i f sg e g h =
    let m1 : Muse = record m { bitmap_frames = set m.bitmap_frames i tomado } in
    let t : get_elem? (set m.bitmap_frames i tomado) i ≡ some tomado =
      get_elem?-set_self m.bitmap_frames i tomado (get_elem?-lt m.bitmap_frames i g) in
    rw (asignar_un_frame-libre m i f e g, marcar_tomado-tomado m1 i t, h)

module _ (m : Muse) (s : Sitio) (sg : Segmento) (k i : ℕ) (en : segmento_en (m, s) ≡ ok sg)
    (pg : get_elem? sg.tabla_paginas k ≡ some (pagina_nueva i)) where
  pub posicion_pagina-presente : posicion_pagina k (m, s) ≡ ok ((m, s), i * m.tam_pagina)
  unfolding posicion_pagina
  posicion_pagina-presente = rw (en, pg)

  usar_frame_de-tomado :
      get_elem? m.bitmap_frames i ≡ some tomado → usar_frame_de k (m, s) ≡ ok (m, s)
  unfolding usar_frame_de
  usar_frame_de-tomado e =
      rw (en, pg, e)
        (ap (λ fs. ok (record m { bitmap_frames = fs }, s)) (set_self m.bitmap_frames i tomado e))

  -- A metadata that is not split only adds its piece.
  pub ubicar_metadata-entera :
      (direccion : ℕ) (libre : Bool) (size : ℕ) (o : Obra)
      → get_elem? m.bitmap_frames i ≡ some tomado
      → queda_partida m.tam_pagina direccion ≡ false
      → agregar_metadata (heap_en m.tam_pagina direccion libre size) (m, s) ≡ ok o
      → ubicar_metadata direccion libre size k (m, s) ≡ ok (o, false)
  unfolding ubicar_metadata heap_en
  ubicar_metadata-entera direccion libre size o e q a =
      rw (usar_frame_de-tomado e, posicion_pagina-presente, a, q)
