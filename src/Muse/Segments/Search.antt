-- ===== src/Muse/Segments/Search.antt =====
-- What the searches over segments find (Memoria/muse.c).
use linuse_tp_os.Base.{
  ℕ, ◌+◌, ◌-◌, ◌%◌, ◌^◌, ◌≤◌, ◌<◌, ◌≡◌, refl, ap, ◌⊎◌, inl, inr, true, false, Option, none, some,
  List, [], ◌∷◌, ◌++◌, arith, ltb, leb, Bool-cases, any, All,
}
use linuse_tp_os.Muse.Model.{HeapLista, Segmento}
use linuse_tp_os.Muse.Segments.{
  tamanio_metadata, resta, segmento_que_contiene_direccion, id_segmento_que_contiene_direccion,
  sirve, leb_int, sirve_int, buscar_segmento_con_tamanio_disponible, metadata_libre,
  retornar_metadata_tamanio_libre,
}

-- The segment ends within 32 bits.
abbrev pub Cabe : Segmento → Type 0
Cabe s = s.base_logica + s.tamanio ≤ 2 ^ 32

abbrev pub Dentro : ℕ → Segmento → Type 0
Dentro direccion s = (s.base_logica ≤ direccion) × (direccion < s.base_logica + s.tamanio)

abbrev pub Fuera : ℕ → Segmento → Type 0
Fuera direccion s = (direccion < s.base_logica) ⊎ (s.base_logica + s.tamanio ≤ direccion)

-- The first segment that the address lies in, or none.
abbrev pub Contiene : ℕ → List Segmento → Option Segmento → Type 0
Contiene direccion ss none = All (Fuera direccion) ss
Contiene direccion ss (some s) =
    (antes : List Segmento) × (despues : List Segmento) × (ss ≡ antes ++ (s ∷ despues))
    × All (Fuera direccion) antes
    × Dentro direccion s

resta_exacta : (a b : ℕ) → a < 2 ^ 32 → b ≤ a → resta a b ≡ a - b
unfolding resta
resta_exacta a b h l = omega arith

resta_vuelta : (a b : ℕ) → a < b → b ≤ 2 ^ 32 → resta a b ≡ a + 2 ^ 32 - b
unfolding resta
resta_vuelta a b h l = omega arith

casos_de_direccion :
    (direccion : ℕ) (s : Segmento)
    → direccion < 2 ^ 32
    → Cabe s
    → ((ltb (resta direccion s.base_logica) s.tamanio ≡ true) × Dentro direccion s)
      ⊎ ((ltb (resta direccion s.base_logica) s.tamanio ≡ false) × Fuera direccion s)
casos_de_direccion direccion s h c = elim (Bool-cases (leb s.base_logica direccion)) [
  | inl l ↦
      let b : s.base_logica ≤ direccion = ground arith in
      rw (resta_exacta direccion s.base_logica h b)
        (elim (Bool-cases (ltb direccion (s.base_logica + s.tamanio))) [
          | inl e ↦ inl (ground arith, (b, ground arith))
          | inr e ↦ inr (ground arith, inr (ground arith))
        ])
  | inr l ↦
      let b : direccion < s.base_logica = ground arith in
      rw (resta_vuelta direccion s.base_logica b (omega arith)) (inr (ground arith, inl b))
]

-- With segments that end within 32 bits and an address of 32 bits, `segmentoQueContieneDireccion`
-- answers the first segment that the address lies in, and NULL only where it lies in none.
pub segmento_que_contiene_direccion-Contiene :
    (ss : List Segmento) (direccion : ℕ)
    → direccion < 2 ^ 32
    → All Cabe ss
    → Contiene direccion ss (segmento_que_contiene_direccion ss direccion)
unfolding segmento_que_contiene_direccion
segmento_que_contiene_direccion-Contiene [] direccion h c = tt
segmento_que_contiene_direccion-Contiene (s ∷ ss) direccion h c =
    elim (casos_de_direccion direccion s h c.0) [
      | inl (e, d) ↦ rw e ([], ss, refl, tt, d)
      | inr (e, f) ↦ rw e (
          mas s f (segmento_que_contiene_direccion ss direccion)
            (segmento_que_contiene_direccion-Contiene ss direccion h c.1))
    ]
  where
    mas :
        (s : Segmento)
        → Fuera direccion s
        → (o : Option Segmento) → Contiene direccion ss o
        → Contiene direccion (s ∷ ss) o
    mas s f none a = (f, a)
    mas s f (some t) (antes, despues, e, a, d) =
        (s ∷ antes, despues, ap (λ ts. s ∷ ts) e, (f, a), d)

abbrev pub id_de : Option Segmento → Option ℕ
id_de none = none
id_de (some s) = some s.id

-- Both searches find the same segment.
id_segmento-segmento :
    (ss : List Segmento) (direccion : ℕ)
    → id_segmento_que_contiene_direccion ss direccion
      ≡ id_de (segmento_que_contiene_direccion ss direccion)
unfolding id_segmento_que_contiene_direccion segmento_que_contiene_direccion
id_segmento-segmento [] direccion = refl
id_segmento-segmento (s ∷ ss) direccion =
    elim (Bool-cases (ltb (resta direccion s.base_logica) s.tamanio)) [
      | inl e ↦ rw e
      | inr e ↦ rw e (id_segmento-segmento ss direccion)
    ]

-- A free piece of at least the size, and any other.
abbrev pub Sirve : ℕ → HeapLista → Type 0
Sirve tamanio h = (h.is_free ≡ true) × (tamanio ≤ h.size)

abbrev pub NoSirve : ℕ → HeapLista → Type 0
NoSirve tamanio h = (h.is_free ≡ false) ⊎ (h.size < tamanio)

abbrev pub Disponible : ℕ → List Segmento → Option Segmento → Type 0
Disponible tamanio ss none = All (λ s. All (NoSirve tamanio) s.metadatas) ss
Disponible tamanio ss (some s) =
    (antes : List HeapLista) × (h : HeapLista) × (despues : List HeapLista) × (s.metadatas
      ≡ antes ++ (h ∷ despues))
    × All (NoSirve tamanio) antes
    × Sirve tamanio h
    × (retornar_metadata_tamanio_libre s tamanio ≡ some (h.direccion_heap + tamanio_metadata))

-- A size that is not negative as an `int`.
abbrev pub EnInt : HeapLista → Type 0
EnInt h = h.size < 2 ^ 31

casos_de_pieza :
    (tamanio : ℕ) (h : HeapLista)
    → tamanio < 2 ^ 31
    → EnInt h
    → ((sirve_int tamanio h ≡ true) × (sirve tamanio h ≡ true) × Sirve tamanio h)
      ⊎ ((sirve_int tamanio h ≡ false) × (sirve tamanio h ≡ false) × NoSirve tamanio h)
unfolding leb_int
casos_de_pieza tamanio h u v =
    let a : (tamanio + 2 ^ 31) % 2 ^ 32 ≡ tamanio + 2 ^ 31 = omega arith in
    let b : (h.size + 2 ^ 31) % 2 ^ 32 ≡ h.size + 2 ^ 31 = omega arith in
    elim (Bool-cases h.is_free) [
      | inr f ↦ inr (rw f refl, rw f refl, inl f)
      | inl f ↦ elim (Bool-cases (leb tamanio h.size)) [
        | inl l ↦
            let c : leb (tamanio + 2 ^ 31) (h.size + 2 ^ 31) ≡ true = ground arith in
            inl (rw (f, a, b) c, rw f l, (f, ground arith))
        | inr l ↦
            let c : leb (tamanio + 2 ^ 31) (h.size + 2 ^ 31) ≡ false = ground arith in
            inr (rw (f, a, b) c, rw f l, inr (ground arith))
      ]
    ]

-- The same of a list of pieces.
metadata_libre-primera :
    (hs : List HeapLista) (tamanio : ℕ)
    → tamanio < 2 ^ 31
    → All EnInt hs
    → any (sirve_int tamanio) hs ≡ true
    → (antes : List HeapLista) × (h : HeapLista) × (despues : List HeapLista) × (hs
        ≡ antes ++ (h ∷ despues))
      × All (NoSirve tamanio) antes
      × Sirve tamanio h
      × (metadata_libre hs tamanio ≡ some (h.direccion_heap + tamanio_metadata))
unfolding metadata_libre
metadata_libre-primera [] tamanio u v e = cc
metadata_libre-primera (h ∷ hs) tamanio u v e = elim (casos_de_pieza tamanio h u v.0) [
  | inl (p, q, r) ↦ rw q ([], h, hs, refl, tt, r, refl)
  | inr (p, q, r) ↦
      let (antes, g, despues, x, a, b, c) = metadata_libre-primera hs tamanio u v.1 (rw p at e) in
      rw q (h ∷ antes, g, despues, ap (λ ts. h ∷ ts) x, (r, a), b, c)
]

any-ninguno :
    (tamanio : ℕ) (hs : List HeapLista)
    → tamanio < 2 ^ 31
    → All EnInt hs
    → any (sirve_int tamanio) hs ≡ false
    → All (NoSirve tamanio) hs
any-ninguno tamanio [] u v e = tt
any-ninguno tamanio (h ∷ hs) u v e = elim (casos_de_pieza tamanio h u v.0) [
  | inl (p, q, r) ↦ absurd (let x : true ≡ false = rw p at e in cc)
  | inr (p, q, r) ↦ (r, any-ninguno tamanio hs u v.1 (rw p at e))
]

-- With `tamanio` and the sizes of the pieces below 2 ^ 31: the segment that
-- `buscarSegmentoConTamanioDisponible` finds has a free piece that is large enough, and
-- `retornarMetadataTamanioLibre` answers the address after the metadata of the first such piece, never
-- -1; where it finds none, no segment has such a piece.
pub buscar_segmento-Disponible :
    (ss : List Segmento) (tamanio : ℕ)
    → tamanio < 2 ^ 31
    → All (λ s. All EnInt s.metadatas) ss
    → Disponible tamanio ss (buscar_segmento_con_tamanio_disponible ss tamanio)
unfolding buscar_segmento_con_tamanio_disponible retornar_metadata_tamanio_libre
buscar_segmento-Disponible [] tamanio u v = tt
buscar_segmento-Disponible (s ∷ ss) tamanio u v =
    elim (Bool-cases (any (sirve_int tamanio) s.metadatas)) [
      | inl e ↦ rw e (metadata_libre-primera s.metadatas tamanio u v.0 e)
      | inr e ↦ rw e (
          mas (buscar_segmento_con_tamanio_disponible ss tamanio)
            (any-ninguno tamanio s.metadatas u v.0 e) (buscar_segmento-Disponible ss tamanio u v.1))
    ]
  where
    mas :
        (o : Option Segmento)
        → All (NoSirve tamanio) s.metadatas
        → Disponible tamanio ss o
        → Disponible tamanio (s ∷ ss) o
    mas none a d = (a, d)
    mas (some t) a d = d
