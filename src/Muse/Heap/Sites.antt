-- ===== src/Muse/Heap/Sites.antt =====
-- What reading and writing a segment does at the place where it is kept (Memoria/muse.c).
use linuse_tp_os.Base.{
  ℕ, ◌≡◌, refl, ◌∙◌, subst, inl, inr, Bool, false, Option, none, some, List, ◌==◌, Bool-cases,
  Option-cases, clave_nombre, clave_numero, puntero_nulo, ok, fallo, desref, en_arreglo, Logra,
  Logra->>=, Logra-resto, Logra-desref, Logra-weaken, Garantiza, Garantiza-Logra, get_elem?, set,
  get_elem?-set_self, get_elem?-lt, lookup, lookup-insert_self,
}
use linuse_tp_os.Muse.Model.{Frame, Pagina, Segmento, Muse}
use linuse_tp_os.Muse.Heap.{
  Sitio, suelto, en_tabla, Obra, segmento_en, con_segmento, traer_pagina, presentar,
  posicion_pagina,
}
use linuse_tp_os.Muse.Segments.{segmento_de}
use linuse_tp_os.Muse.Frames.{buscar_frame_libre}

-- Both are out of any table, or at the same index of the same one.
abbrev pub MismoSitio : Sitio → Sitio → Type 0
MismoSitio (suelto a) s = (b : Segmento) × (s ≡ suelto b)
MismoSitio (en_tabla c j) s = s ≡ en_tabla c j

pub MismoSitio-refl : (s : Sitio) → MismoSitio s s
MismoSitio-refl (suelto a) = (a, refl)
MismoSitio-refl (en_tabla c j) = refl

pub MismoSitio-trans : (s t u : Sitio) → MismoSitio s t → MismoSitio t u → MismoSitio s u
MismoSitio-trans (suelto a) t u (b, e) k = subst (λ x. MismoSitio x u) e k
MismoSitio-trans (en_tabla c j) t u e k = subst (λ x. MismoSitio x u) e k

-- The segment that is read after the step; the place and the size of a page stay.
abbrev pub Escrito : Segmento → Obra → Obra → Type 0
Escrito sg o o' =
    (segmento_en o' ≡ ok sg) × ((o'.0).tam_pagina ≡ (o.0).tam_pagina) × MismoSitio o.1 o'.1

pub Escrito-trans :
    (sg sg' : Segmento) (o o1 o2 : Obra) → Escrito sg o o1 → Escrito sg' o1 o2 → Escrito sg' o o2
Escrito-trans sg sg' o o1 o2 (a, b, c) (d, e, f) = (d, e ∙ b, MismoSitio-trans o.1 o1.1 o2.1 c f)

desref-ok {ℓ} : {A : Type ℓ} (o : Option A) {a : A} → desref o ≡ ok a → o ≡ some a
desref-ok none e = cc
desref-ok (some b) e = cc

-- Writing a segment where one is read.
pub con_segmento-Escrito :
    (sg sg' : Segmento) (o : Obra)
    → segmento_en o ≡ ok sg
    → Garantiza (Escrito sg' o) (con_segmento sg' o)
unfolding segmento_en con_segmento segmento_de
con_segmento-Escrito sg sg' (m, suelto s) e = (refl, refl, (sg', refl))
con_segmento-Escrito sg sg' (m, en_tabla c j) e =
    elim (Option-cases (lookup c m.tablas_segmentos)) [
      | inl n ↦ let x : fallo puntero_nulo ≡ ok sg = rw n at e in cc
      | inr (ss, v) ↦
          let x : desref (get_elem? ss j) ≡ ok sg = rw v at e in
          let y : get_elem? ss j ≡ some sg = desref-ok _ x in
          rw
            (
              v,
              lookup-insert_self c (set ss j sg') m.tablas_segmentos,
              get_elem?-set_self ss j sg' (get_elem?-lt ss j y),
            )
            (refl, refl, refl)
    ]

pub con_segmento-Logra :
    (sg sg' : Segmento) (o : Obra)
    → segmento_en o ≡ ok sg
    → Logra (Escrito sg' o) (con_segmento sg' o)
con_segmento-Logra sg sg' o e =
    Garantiza-Logra (Escrito sg' o) (con_segmento sg' o) (con_segmento-Escrito sg sg' o e)

-- What is read does not depend on the frames, the swap or the clock.
pub segmento_en-frames :
    (m : Muse) (s : Sitio) (fs : List Frame) (bs : List Bool)
    → segmento_en (record m { bitmap_frames = fs; bitmap_swap = bs }, s) ≡ segmento_en (m, s)
unfolding segmento_en segmento_de
segmento_en-frames m (suelto a) fs bs = refl
segmento_en-frames m (en_tabla c j) fs bs = refl

-- Only the pages of the segment differ.
abbrev pub SoloPaginas : Segmento → Obra → Obra → Type 0
SoloPaginas sg o o' = (ps : List Pagina) × Escrito (record sg { tabla_paginas = ps }) o o'

module _ (sg : Segmento) (m : Muse) (s : Sitio) (en : segmento_en (m, s) ≡ ok sg) where
  igual : SoloPaginas sg (m, s) (m, s)
  igual = (sg.tabla_paginas, (en, refl, MismoSitio-refl s))

  traer_pagina-SoloPaginas :
      (k : ℕ) (pg : Pagina) (bit : ℕ)
      → Logra (λ r. SoloPaginas sg (m, s) r.0) (traer_pagina k pg bit (m, s))
  unfolding traer_pagina
  traer_pagina-SoloPaginas k pg bit =
      let Q = λ (r : Obra × Pagina). SoloPaginas sg (m, s) r.0 in
      Logra-resto Q (en_arreglo (buscar_frame_libre m.bitmap_frames)) _ λ i z.
        let pg' : Pagina = record pg { presencia = 1; numero_frame = some i; indice_swap = none } in
        let ps = set sg.tabla_paginas k pg' in
        let m' : Muse = record m { bitmap_swap = set m.bitmap_swap bit false } in
        let sg' : Segmento = record sg { tabla_paginas = ps } in
        let e = segmento_en-frames m s m.bitmap_frames m'.bitmap_swap ∙ en in
        rw en (
          Logra->>= (Escrito sg' (m', s)) Q (con_segmento sg' (m', s)) _
            (con_segmento-Logra sg sg' (m', s) e) λ o x w. (ps, w))

  presentar-SoloPaginas :
      (k : ℕ) (pg : Pagina) → Logra (λ r. SoloPaginas sg (m, s) r.0) (presentar k pg (m, s))
  unfolding presentar
  presentar-SoloPaginas k pg = elim (Bool-cases (pg.presencia == 0)) [
    | inl p ↦ elim (Option-cases pg.indice_swap) [
      | inl n ↦ rw (p, n) igual
      | inr (bit, n) ↦ rw (p, n) (traer_pagina-SoloPaginas k pg bit)
    ]
    | inr p ↦ rw p igual
  ]

  -- The position of a page may bring it in, and changes nothing else of the segment.
  pub posicion_pagina-SoloPaginas :
      (k : ℕ) → Logra (λ r. SoloPaginas sg (m, s) r.0) (posicion_pagina k (m, s))
  unfolding posicion_pagina
  posicion_pagina-SoloPaginas k =
      let Q = λ (r : Obra × ℕ). SoloPaginas sg (m, s) r.0 in
      rw en (
        Logra-desref Q (get_elem? sg.tabla_paginas k) _ λ pg x.
          Logra->>= (λ r. SoloPaginas sg (m, s) r.0) Q (presentar k pg (m, s)) _
            (presentar-SoloPaginas k pg)
            λ (o, pg') y p. Logra-resto Q (en_arreglo pg'.numero_frame) _ λ i z. p)

pub SoloPaginas-trans :
    (sg : Segmento) (o o1 o2 : Obra) (p : SoloPaginas sg o o1)
    → SoloPaginas (record sg { tabla_paginas = p.0 }) o1 o2
    → SoloPaginas sg o o2
SoloPaginas-trans sg o o1 o2 (ps, w) (qs, v) = (
  qs,
  Escrito-trans (record sg { tabla_paginas = ps }) (record sg { tabla_paginas = qs }) o o1 o2 w v,
)

-- One position after another.
pub posicion_pagina-sigue :
    (sg : Segmento) (o o1 : Obra) (k : ℕ)
    → SoloPaginas sg o o1
    → Logra (λ r. SoloPaginas sg o r.0) (posicion_pagina k o1)
posicion_pagina-sigue sg o (m, s) k (ps, w) =
    let sg' : Segmento = record sg { tabla_paginas = ps } in
    Logra-weaken (λ r. SoloPaginas sg' (m, s) r.0) (λ r. SoloPaginas sg o r.0)
      (posicion_pagina k (m, s)) (posicion_pagina-SoloPaginas sg' m s w.0 k)
      λ r v. SoloPaginas-trans sg o (m, s) r.0 (ps, w) v
