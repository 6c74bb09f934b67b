-- ===== src/Muse/Swap/Taking.antt =====
-- A frame taken for a page (`asignarUnFrame` of Memoria/muse.c).
use linuse_tp_os.Base.{
  ℕ, ◌≡◌, refl, subst, inl, inr, true, false, some, Option-cases, Garantiza, get_elem?,
  get_elem?-set_self, get_elem?-set_ne, get_elem?-lt,
}
use linuse_tp_os.Muse.Model.{Frame, Muse}
use linuse_tp_os.Muse.Frames.{buscar_frame_libre, hay_frames_libres}
use linuse_tp_os.Muse.Frames.Search.{PrimeroLibre, buscar_frame_libre-PrimeroLibre}
use linuse_tp_os.Muse.Swap.{elegir_frame, asignar_un_frame}

-- A free frame is taken: the first, which is then marked; all else is as it was.
pub record Ocupado (m m' : Muse) (i : ℕ) : Type 0 where
  pub primero : buscar_frame_libre m.bitmap_frames ≡ some i
  pub estaba_libre : (f : Frame) × (get_elem? m.bitmap_frames i ≡ some f) × (f.esta_libre ≡ true)
  pub marcado :
      get_elem? m'.bitmap_frames i ≡ some (record { modificado = 1; uso = 1; esta_libre = false })
  pub otros : (j : ℕ) → (i ≡ j → ⊥) → get_elem? m'.bitmap_frames j ≡ get_elem? m.bitmap_frames j
  pub resto : record m' { bitmap_frames = m.bitmap_frames } ≡ m

-- Where a frame is free, `asignarUnFrame` ends without replacing a page: it returns the first free
-- frame, marks it used, modified and not free, and changes nothing else.
pub asignar_un_frame-Ocupado :
    (m : Muse)
    → hay_frames_libres m.bitmap_frames ≡ true
    → Garantiza (λ r. Ocupado m r.0 r.1) (asignar_un_frame m)
unfolding asignar_un_frame elegir_frame hay_frames_libres
asignar_un_frame-Ocupado m h = elim (Option-cases (buscar_frame_libre m.bitmap_frames)) [
  | inl e ↦ cc
  | inr (i, e) ↦
      let (k, _) =
        subst (PrimeroLibre m.bitmap_frames) e (buscar_frame_libre-PrimeroLibre m.bitmap_frames) in
      let (f, a, b) = k in
      rw (h, e, a)
        (record {
          primero = e;
          estaba_libre = k;
          marcado = get_elem?-set_self m.bitmap_frames i _ (get_elem?-lt m.bitmap_frames i a);
          otros = λ j n. get_elem?-set_ne m.bitmap_frames {i = i} {j = j} _ n;
          resto = refl;
        })
]
