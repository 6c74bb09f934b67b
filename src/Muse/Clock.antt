-- ===== src/Muse/Clock.antt =====
-- Page replacement: `clockModificado` and `incrementarPunteroClockModificado` of Memoria/muse.c.
pub mod Pass
pub mod Choice
use linuse_tp_os.Base.{
  ℕ, zero, suc, ◌-◌, Bool, true, false, ◌&&◌, Option, none, some, List, ltb, ◌==◌, if◌then◌else◌,
  Resultado, ok, ◌>>=◌, desref, get_elem?, set,
}
use linuse_tp_os.Muse.Model.{Frame}

-- `cantidadFrames - 1` is -1 where there is no frame, and no pointer is below it.
unfoldable pub incrementar_puntero : ℕ → ℕ → ℕ
incrementar_puntero c p = if ltb p (c - 1) then suc p else 0

-- The test of a pass: not used, and modified or not.
unfoldable pub cumple : ℕ → Frame → Bool
cumple m f = f.uso == 0 && f.modificado == m

-- What a pass does to a frame that it does not choose.
unfoldable pub apagar : Bool → Frame → Frame
apagar limpia f = if limpia then record f { uso = 0 } else f

-- The frame chosen, if there is one, the frames and the pointer.
abbrev pub Recorrido : Type 0
Recorrido = Option ℕ × List Frame × ℕ

-- One pass of at most `n` frames from the pointer `p`, of `c` frames.
unfoldable pub recorrer : Bool → ℕ → ℕ → ℕ → List Frame → ℕ → Resultado Recorrido
unfolding cumple apagar incrementar_puntero
recorrer limpia m c zero fs p = ok (none, fs, p)
recorrer limpia m c (suc n) fs p = do
  f ← desref (get_elem? fs p)
  let resto = recorrer limpia m c n (set fs p (apagar limpia f)) (incrementar_puntero c p)
  if cumple m f then ok (some p, fs, incrementar_puntero c p) else resto

-- A pass that runs only where the one before chose no frame.
unfoldable pub si_no_hay : (List Frame → ℕ → Resultado Recorrido) → Recorrido → Resultado Recorrido
si_no_hay k (some i, fs, p) = ok (some i, fs, p)
si_no_hay k (none, fs, p) = k fs p

unfoldable pub clock_modificado : ℕ → List Frame → ℕ → Resultado Recorrido
unfolding recorrer si_no_hay
clock_modificado c fs p = do
  r1 ← recorrer false 0 c c fs p
  r2 ← si_no_hay (recorrer true 1 c c) r1
  r3 ← si_no_hay (recorrer false 0 c c) r2
  si_no_hay (recorrer false 1 c c) r3
