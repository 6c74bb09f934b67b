-- ===== src/Sac/Growing/Refusal.antt =====
-- The sizes that a file cannot grow by (Sac-Server/estructuras.c).
use linuse_tp_os.Base.{
  ℕ, zero, suc, ◌*◌, ◌%◌, ◌^◌, ◌≤◌, ◌<◌, ◌≡◌, refl, ◌⊎◌, inl, inr, Bool, true, false, arith, ltb,
  leb, ◌==◌, ==_iff, Bool-cases, ok, Logra, Logra->>=, Logra-resto,
}
use linuse_tp_os.Sac.Model.{Archivo, Disco}
use linuse_tp_os.Sac.Blocks.{
  obtener_bloque_libre, contar_libres, hecho, sin_espacio, agregar_bloque_libre,
}
use linuse_tp_os.Sac.Growing.{
  espacio_en_bloque, menos, agrandar, agregar_bloques, darle_espacio_nuevo,
}

resto_menos : (size : ℕ) → size < 2 ^ 32 → menos size 4096 % 4096 ≡ size % 4096
unfolding menos
resto_menos size u = omega arith

menos-lt : (a b : ℕ) → menos a b < 2 ^ 32
unfolding menos
menos-lt a b = omega arith

-- The loop does not end.
agregar_bloques-fallo :
    (n espacio size : ℕ) (f : Archivo) (d : Disco)
    → size < 2 ^ 32
    → espacio ≤ size % 4096
    → Logra (λ r. ⊥) (agregar_bloques n espacio size f d)
unfolding agregar_bloques
agregar_bloques-fallo zero espacio size f d u g =
    let b : leb espacio size ≡ true = ground arith in rw b tt
agregar_bloques-fallo (suc n) espacio size f d u g =
    let b : leb espacio size ≡ true = ground arith in
    rw b (
      Logra-resto (λ r. ⊥) (obtener_bloque_libre d) _
        λ p e.
          Logra-resto (λ r. ⊥) (agregar_bloque_libre f p.1 p.0) _
            λ q e'.
              agregar_bloques-fallo n espacio (menos size 4096) (agrandar 4096 q.0) q.1
                (menos-lt size 4096) (rw (resto_menos size u) g))

-- The test for free blocks.
abbrev sin_lugar : Archivo → ℕ → Disco → Bool
sin_lugar f size d = ltb (d.bitmap_free_blocks * 4096 % 2 ^ 32) (menos size (espacio_en_bloque f))

darle_espacio_nuevo-chico :
    (f : Archivo) (size : ℕ) (d : Disco)
    → d.bitmap_free_blocks * 4096 < 2 ^ 31
    → size < espacio_en_bloque f
    → darle_espacio_nuevo f size d ≡ ok (f, d, sin_espacio)
unfolding darle_espacio_nuevo menos espacio_en_bloque
darle_espacio_nuevo-chico f size d v l =
    let b : sin_lugar f size d ≡ true = ground arith in rw b refl

darle_espacio_nuevo-justo :
    (f : Archivo) (size : ℕ) (d : Disco)
    → size ≡ espacio_en_bloque f
    → darle_espacio_nuevo f size d ≡ ok (agrandar size f, d, hecho)
unfolding darle_espacio_nuevo menos espacio_en_bloque
darle_espacio_nuevo-justo f size d l =
    let b : sin_lugar f size d ≡ false = ground arith in
    let c : leb size (espacio_en_bloque f) ≡ true = ground arith in rw (b, c) refl

darle_espacio_nuevo-grande :
    (f : Archivo) (size : ℕ) (d : Disco)
    → size < 2 ^ 31
    → espacio_en_bloque f < size
    → espacio_en_bloque f ≤ size % 4096
    → Logra (λ r. r ≡ (f, d, sin_espacio)) (darle_espacio_nuevo f size d)
unfolding darle_espacio_nuevo
darle_espacio_nuevo-grande f size d u l g = elim (Bool-cases (sin_lugar f size d)) [
  | inl b ↦ rw b refl
  | inr b ↦
      let c : leb size (espacio_en_bloque f) ≡ false = ground arith in
      rw (b, c)
        (Logra->>= (λ r. ⊥) (λ r. r ≡ (f, d, sin_espacio))
          (agregar_bloques (suc (contar_libres d.bitmap)) (espacio_en_bloque f) size
            (agrandar (espacio_en_bloque f) f) d)
          _
          (agregar_bloques-fallo (suc (contar_libres d.bitmap)) (espacio_en_bloque f) size
            (agrandar (espacio_en_bloque f) f) d (omega arith) g)
          λ a e h. absurd h)
]

-- Let the last block of the file have `espacio` bytes left: a whole block where the size of the file is
-- a multiple of one. With `size` and the free blocks below 2 ^ 31 bytes, `darleEspacioNuevo` answers
-- -ENOSPC and changes nothing if `size` is below `espacio`; it only raises the size of the file, by
-- `size`, if they are equal; and if `size` is above `espacio`, its remainder by 4096 is below `espacio`,
-- or the function comes back only to answer -ENOSPC with nothing changed.
pub darle_espacio_nuevo-rechaza :
    (f : Archivo) (size : ℕ) (d : Disco)
    → size < 2 ^ 31
    → d.bitmap_free_blocks * 4096 < 2 ^ 31
    → ((size < espacio_en_bloque f) × (darle_espacio_nuevo f size d ≡ ok (f, d, sin_espacio)))
      ⊎ ((size ≡ espacio_en_bloque f)
          × (darle_espacio_nuevo f size d ≡ ok (agrandar size f, d, hecho)))
      ⊎ ((espacio_en_bloque f < size)
          × ((size % 4096 < espacio_en_bloque f)
              ⊎ Logra (λ r. r ≡ (f, d, sin_espacio)) (darle_espacio_nuevo f size d)))
darle_espacio_nuevo-rechaza f size d u v = elim (Bool-cases (ltb size (espacio_en_bloque f))) [
  | inl b ↦
      let l : size < espacio_en_bloque f = ground arith in
      inl (l, darle_espacio_nuevo-chico f size d v l)
  | inr b ↦ elim (Bool-cases (size == espacio_en_bloque f)) [
    | inl c ↦
        let l = (==_iff size (espacio_en_bloque f)).0 c in
        inr (inl (l, darle_espacio_nuevo-justo f size d l))
    | inr c ↦
        let l : espacio_en_bloque f < size = ground arith in
        inr (
          inr (
            l,
            (elim (Bool-cases (ltb (size % 4096) (espacio_en_bloque f))) [
              | inl g ↦ inl (ground arith)
              | inr g ↦ inr (darle_espacio_nuevo-grande f size d u l (ground arith))
            ]),
          ))
  ]
]
