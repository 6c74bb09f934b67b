-- ===== src/Muse/Frames.antt =====
-- The bitmap of frames: `crearBitmapFrames`, `frameEstaLibre`, `ocuparFrame`, `liberarFrame`,
-- `buscarFrameLibre`, `hayFramesLibres`, `hayMemoriaDisponible`, the segment tables
-- (`crearTablaSegmentosProceso`, `museinit`) and the start (`arrancarMemoria`) of Memoria/muse.c.
pub mod Search
use linuse_tp_os.Base.{
  ℕ, zero, suc, Bool, true, false, Option, none, some, List, [], ◌∷◌, if◌then◌else◌, is_some,
  clave_nombre, clave_numero, Resultado, ok, ◌>>=◌, desref, get_elem?, set, insert, has_key,
}
use linuse_tp_os.Muse.Model.{Frame, Muse}

unfoldable pub crear_bitmap_frames : ℕ → List Frame
crear_bitmap_frames zero = []
crear_bitmap_frames (suc n) =
    record { modificado = 0; uso = 0; esta_libre = true } ∷ crear_bitmap_frames n

-- `list_get` of an index past the end is NULL.
unfoldable pub frame_esta_libre : ℕ → List Frame → Resultado Bool
frame_esta_libre i fs = do f ← desref (get_elem? fs i); ok f.esta_libre

unfoldable pub ocupar_frame : ℕ → List Frame → Resultado (List Frame)
ocupar_frame i fs = do
  f ← desref (get_elem? fs i)
  ok (set fs i (record f { uso = 1; esta_libre = false }))

unfoldable pub liberar_frame : ℕ → List Frame → Resultado (List Frame)
liberar_frame i fs = do f ← desref (get_elem? fs i); ok (set fs i (record f { esta_libre = false }))

-- The loop of `buscarFrameLibre` from index `i`, over the rest of the list.
unfoldable pub buscar_libre_desde : ℕ → List Frame → Option ℕ
buscar_libre_desde i [] = none
buscar_libre_desde i (f ∷ fs) = if f.esta_libre then some i else buscar_libre_desde (suc i) fs

unfoldable pub buscar_frame_libre : List Frame → Option ℕ
unfolding buscar_libre_desde
buscar_frame_libre = buscar_libre_desde 0

unfoldable pub hay_frames_libres : List Frame → Bool
unfolding buscar_frame_libre
hay_frames_libres fs = is_some (buscar_frame_libre fs)

-- `buscarIndiceSwapLibre`: the first bit that is 0.
unfoldable pub buscar_bit_libre_desde : ℕ → List Bool → Option ℕ
buscar_bit_libre_desde i [] = none
buscar_bit_libre_desde i (true ∷ bs) = buscar_bit_libre_desde (suc i) bs
buscar_bit_libre_desde i (false ∷ bs) = some i

unfoldable pub buscar_indice_swap_libre : List Bool → Option ℕ
unfolding buscar_bit_libre_desde
buscar_indice_swap_libre = buscar_bit_libre_desde 0

unfoldable pub hay_bit_libre : List Bool → Bool
hay_bit_libre [] = false
hay_bit_libre (true ∷ bs) = hay_bit_libre bs
hay_bit_libre (false ∷ bs) = true

unfoldable pub hay_memoria_disponible : Muse → Bool
unfolding hay_bit_libre
hay_memoria_disponible m = hay_libre m.bitmap_frames
  where
    hay_libre : List Frame → Bool
    hay_libre [] = hay_bit_libre m.bitmap_swap
    hay_libre (f ∷ fs) = if f.esta_libre then true else hay_libre fs

unfoldable pub crear_tabla_segmentos_proceso : ℕ → Muse → Muse
crear_tabla_segmentos_proceso id m =
    if has_key id m.tablas_segmentos
    then m
    else record m { tablas_segmentos = insert id [] m.tablas_segmentos }

-- `museinit`: the table is made in both cases, and `true` stands for the answer 0.
unfoldable pub museinit : ℕ → Muse → Muse × Bool
unfolding crear_tabla_segmentos_proceso hay_memoria_disponible
museinit id m = (crear_tabla_segmentos_proceso id m, hay_memoria_disponible m)
