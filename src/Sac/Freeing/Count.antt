-- ===== src/Sac/Freeing/Count.antt =====
-- How many blocks are free once the blocks of a file are freed (Sac-Server/estructuras.c).
use linuse_tp_os.Base.{
  ℕ, zero, suc, ◌+◌, ◌-◌, ◌*◌, ◌/◌, ◌%◌, ◌^◌, ◌<◌, ◌≡◌, refl, ap, ◌∙◌, ◌≢◌, inl, inr, true, false,
  List, arith, ltb, ◌==◌, if◌then◌else◌, ==_iff, Bool-cases, Option-cases, pos, Logra, Logra->>=,
  Logra-resto, Logra-weaken, get_elem?, set,
}
use linuse_tp_os.Sac.Model.{Archivo, Disco}
use linuse_tp_os.Sac.Freeing.{
  limpiar_bit, borrar_datos, punteros_de, borrar_punteros, posicion_siguiente, ultima_posicion,
  eliminar_nodos,
}
use linuse_tp_os.Sac.Blocks.{settear_posicion, leer_en}

-- `k` blocks more are free than on `d`.
abbrev pub Libera : ℕ → Disco → Disco → Type 0
Libera k d e = e.bitmap_free_blocks ≡ d.bitmap_free_blocks + k

limpiar_bit-Libera : (n : ℕ) (d : Disco) → Logra (Libera 0 d) (limpiar_bit n d)
unfolding limpiar_bit
limpiar_bit-Libera n d = elim (Option-cases (get_elem? d.bitmap n)) [
  | inl e ↦ rw e tt
  | inr (b, e) ↦ rw e (omega arith)
]

borrar_datos-Libera :
    (aux : List ℕ) (p : ℕ) (d : Disco) → Logra (Libera p d) (borrar_datos aux 0 p d)
unfolding borrar_datos
borrar_datos-Libera aux zero d = omega arith
borrar_datos-Libera aux (suc k) d =
    let z : (0 == suc k) ≡ false = ground arith in
    rw z (
      Logra-resto (Libera (suc k) d) (leer_en aux k) _ λ n e.
        Logra->>= (Libera 0 d) (Libera (suc k) d) (limpiar_bit n d) _ (limpiar_bit-Libera n d)
          λ d1 m l.
            Logra-weaken (Libera k (record d1 { bitmap_free_blocks = suc d1.bitmap_free_blocks }))
              (Libera (suc k) d)
              (borrar_datos aux 0 k (record d1 { bitmap_free_blocks = suc d1.bitmap_free_blocks }))
              (borrar_datos-Libera aux k
                (record d1 { bitmap_free_blocks = suc d1.bitmap_free_blocks }))
              λ t h. omega (arith, h, l))

-- The blocks of data up to a position of both loops.
abbrev pub hasta : ℕ → ℕ → ℕ
hasta zero dato = 0
hasta (suc i) dato = dato + 1024 * i

pub hasta-1024 : (i : ℕ) → hasta i 1024 ≡ 1024 * i
hasta-1024 zero = omega arith
hasta-1024 (suc i) = omega arith

borrar_punteros-Libera :
    (i dato : ℕ) (f : Archivo) (d : Disco)
    → (dato == 0) ≡ false
    → Logra (λ r. Libera (hasta i dato) d r.1) (borrar_punteros 1 0 0 i dato f d)
unfolding borrar_punteros
borrar_punteros-Libera zero dato f d p = omega arith
borrar_punteros-Libera (suc i) dato f d p =
    let cota : (if i == 0 then 0 else 0) + (1 - 1) ≡ 0 = ground arith in
    let sigue : (i + 1 == 0) ≡ false = ground arith in
    rw (p, cota)
      (Logra-resto (λ r. Libera (dato + 1024 * i) d r.1) (leer_en f.bloques_indirectos i) _
        λ n e.
          Logra-resto (λ r. Libera (dato + 1024 * i) d r.1) (punteros_de n d) _
            λ aux g.
              Logra->>= (Libera dato d) (λ r. Libera (dato + 1024 * i) d r.1)
                (borrar_datos aux 0 dato d) _ (borrar_datos-Libera aux dato d)
                λ d1 m l. rw sigue (
                  Logra->>= (Libera 0 d1) (λ r. Libera (dato + 1024 * i) d r.1) (limpiar_bit n d1) _
                    (limpiar_bit-Libera n d1)
                    λ d2 m2 l2.
                      Logra-weaken (λ r. Libera (hasta i 1024) d2 r.1)
                        (λ r. Libera (dato + 1024 * i) d r.1)
                        (borrar_punteros 1 0 0 i 1024
                          (record f { bloques_indirectos = set f.bloques_indirectos i 0 }) d2)
                        (borrar_punteros-Libera i 1024
                          (record f { bloques_indirectos = set f.bloques_indirectos i 0 }) d2 refl)
                        λ r h. omega (arith, h, l, l2, hasta-1024 i)))

pub posicion-en_rango :
    (s : ℕ)
    → s < 2 ^ 31
    → settear_posicion s ≡ (pos (s / (4096 * 1024)), pos (s % (4096 * 1024) / 4096))
unfolding settear_posicion
posicion-en_rango s h =
    let n : s % 2 ^ 32 ≡ s = omega arith in
    let l : ltb s (2 ^ 31) ≡ true = ground arith in rw (n, l)

-- The blocks of a file, from its size.
abbrev pub bloques_de : ℕ → ℕ
bloques_de s = (s + 4095) / 4096

pub ultima_posicion-cuenta :
    (s : ℕ)
    → s < 2 ^ 31
    → (((ultima_posicion s).1 == 0) ≡ false)
      × (hasta (ultima_posicion s).0 (ultima_posicion s).1 ≡ bloques_de s)
unfolding ultima_posicion posicion_siguiente
ultima_posicion-cuenta s h =
    rw (posicion-en_rango s h) (elim (Bool-cases (s % (4096 * 1024) == 0)) [
      | inl e ↦
          let e' : s % (4096 * 1024) ≡ 0 = (==_iff (s % (4096 * 1024)) 0).0 e in
          let menos : suc (s / (4096 * 1024)) - 1 ≡ s / (4096 * 1024) = omega arith in
          rw (e, menos) (refl, hasta-1024 (s / (4096 * 1024)) ∙ omega (arith, e'))
      | inr e ↦ elim (Bool-cases (s % 4096 == 0)) [
        | inl g ↦
            let g' : s % 4096 ≡ 0 = (==_iff (s % 4096) 0).0 g in
            let no : s % (4096 * 1024) ≢ 0 =
              λ x. ground (arith, e, ==_iff (s % (4096 * 1024)) 0, x) in
            rw (e, g) (ground (arith, no, g'), omega (arith, g', no))
        | inr g ↦
            let no : s % 4096 ≢ 0 = λ x. ground (arith, g, ==_iff (s % 4096) 0, x) in
            rw (e, g) (ground arith, omega (arith, no))
      ]
    ])

-- With DELETE_MODE the count of free blocks grows by the blocks of data, where `eliminarNodos` ends.
pub eliminar_nodos-Libera :
    (f : Archivo) (d : Disco)
    → f.tamanio_archivo < 2 ^ 31
    → Logra (λ r. Libera (bloques_de f.tamanio_archivo) d r.1.1) (eliminar_nodos 1 0 0 f d)
unfolding eliminar_nodos
eliminar_nodos-Libera f d h =
    let (p, c) = ultima_posicion-cuenta f.tamanio_archivo h in
    let u = ultima_posicion f.tamanio_archivo in
    Logra->>= (λ (r : Archivo × Disco). Libera (hasta u.0 u.1) d r.1)
      (λ (r : ℕ × (Archivo × Disco)). Libera (bloques_de f.tamanio_archivo) d r.1.1)
      (borrar_punteros 1 0 0 u.0 u.1 f d) _ (borrar_punteros-Libera u.0 u.1 f d p)
      λ r e l. l ∙ ap (λ k. d.bitmap_free_blocks + k) c
