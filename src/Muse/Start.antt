-- ===== src/Muse/Start.antt =====
-- The start of MUSE: `arrancarMemoria` and `inicializarBitmapSwap` of Memoria/muse.c.
use linuse_tp_os.Base.{ℕ, zero, suc, ◌/◌, Bool, false, List, [], ◌∷◌}
use linuse_tp_os.Muse.Model.{Muse}
use linuse_tp_os.Muse.Frames.{crear_bitmap_frames}

unfoldable pub repetir {ℓ} : {A : Type ℓ} → ℕ → A → List A
repetir zero a = []
repetir (suc n) a = a ∷ repetir n a

unfoldable pub inicializar_bitmap_swap : ℕ → List Bool
unfolding repetir
inicializar_bitmap_swap n = repetir n false

-- By the sizes of the memory, of a page, which is not 0, and of swap. The array of sockets has 30
-- entries that are 0.
unfoldable pub arrancar_memoria : ℕ → ℕ → ℕ → Muse
unfolding crear_bitmap_frames inicializar_bitmap_swap repetir
arrancar_memoria tamanio_memoria tamanio_pag tamanio_swap = record {
  cantidad_frames = tamanio_memoria / tamanio_pag;
  puntero_clock = 0;
  bitmap_frames = crear_bitmap_frames (tamanio_memoria / tamanio_pag);
  bitmap_swap = inicializar_bitmap_swap (tamanio_swap / tamanio_pag);
  tablas_segmentos = [];
  client_socket = repetir 30 0;
  tam_pagina = tamanio_pag;
}
