-- ===== src/Muse/Frames/Search.antt =====
-- The searches over the bitmaps of frames and of swap (Memoria/muse.c).
use mathlib.Core.Option
use linuse_tp_os.Base.{
  ℕ, zero, suc, ◌<◌, ◌≡◌, refl, sym, ap, ◌∙◌, subst, inl, inr, Bool, true, false, Option, none,
  some, List, [], ◌∷◌, arith, if◌then◌else◌, Bool-cases, get_elem?,
}
use linuse_tp_os.Muse.Model.{Frame}
use linuse_tp_os.Muse.Frames.{buscar_libre_desde, buscar_frame_libre}

-- The least index of a free frame, or that there is none.
abbrev pub PrimeroLibre : List Frame → Option ℕ → Type 0
PrimeroLibre fs none = (j : ℕ) (f : Frame) → get_elem? fs j ≡ some f → f.esta_libre ≡ false
PrimeroLibre fs (some i) =
    ((f : Frame) × (get_elem? fs i ≡ some f) × (f.esta_libre ≡ true))
    × ((j : ℕ) (f : Frame) → get_elem? fs j ≡ some f → j < i → f.esta_libre ≡ false)

-- A frame that is not free before frames of which the first `n` are not.
antes_cons :
    (f : Frame) (fs : List Frame) (n : ℕ)
    → f.esta_libre ≡ false
    → ((j : ℕ) (g : Frame) → get_elem? fs j ≡ some g → j < n → g.esta_libre ≡ false)
    → (j : ℕ) (g : Frame) → get_elem? (f ∷ fs) j ≡ some g
    → j < suc n
    → g.esta_libre ≡ false
antes_cons f fs n x h zero g e l =
    let y : f ≡ g = cc in sym (ap (λ (z : Frame). z.esta_libre) y) ∙ x
antes_cons f fs n x h (suc k) g e l = h k g e (omega arith)

PrimeroLibre-cons :
    (f : Frame) (fs : List Frame) (o : Option ℕ)
    → f.esta_libre ≡ false
    → PrimeroLibre fs o
    → PrimeroLibre (f ∷ fs) (Option.map suc o)
PrimeroLibre-cons f fs none x h =
    λ j g e. antes_cons f fs j x (λ i y a _. h i y a) j g e (omega arith)
PrimeroLibre-cons f fs (some i) x (h, k) = (h, antes_cons f fs i x k)

desde_suc :
    (i : ℕ) (fs : List Frame)
    → buscar_libre_desde (suc i) fs ≡ Option.map suc (buscar_libre_desde i fs)
unfolding buscar_libre_desde
desde_suc i [] = refl
desde_suc i (f ∷ fs) = elim (Bool-cases f.esta_libre) [
  | inl b ↦ rw b refl
  | inr b ↦ rw b (desde_suc (suc i) fs)
]

PrimeroLibre-desde :
    (f : Frame) (fs : List Frame) (b : Bool)
    → f.esta_libre ≡ b
    → PrimeroLibre fs (buscar_libre_desde 0 fs)
    → PrimeroLibre (f ∷ fs) (if b then some 0 else buscar_libre_desde 1 fs)
PrimeroLibre-desde f fs true e h = ((f, refl, e), λ j g y l. absurd (omega arith))
PrimeroLibre-desde f fs false e h =
    subst (PrimeroLibre (f ∷ fs)) (sym (desde_suc 0 fs))
      (PrimeroLibre-cons f fs (buscar_libre_desde 0 fs) e h)

-- `buscarFrameLibre` answers the least index of a free frame, and -1 only where no frame is free.
pub buscar_frame_libre-PrimeroLibre : (fs : List Frame) → PrimeroLibre fs (buscar_frame_libre fs)
unfolding buscar_frame_libre buscar_libre_desde
buscar_frame_libre-PrimeroLibre [] = λ j f e. cc
buscar_frame_libre-PrimeroLibre (f ∷ fs) =
    PrimeroLibre-desde f fs f.esta_libre refl (buscar_frame_libre-PrimeroLibre fs)
