-- ===== src/Sac/Growing/Fuel.antt =====
-- The turns of the loop of `darleEspacioNuevo` (Sac-Server/estructuras.c): each takes a free block.
use linuse_tp_os.Base.{
  ℕ, zero, suc, ◌≤◌, ◌≡◌, refl, subst, ◌⊎◌, inl, inr, true, ◌&&◌, arith, leb, ◌==◌, Bool-cases,
  Option-cases, clave_nombre, clave_numero, indeterminado, Resultado, ok, fallo, ◌>>=◌, Logra,
  Logra->>=, Logra-resto, Logra-ok, set, lookup,
}
use linuse_tp_os.Sac.Model.{Archivo, Disco}
use linuse_tp_os.Sac.Blocks.{
  primer_cero, primer_bloque, obtener_bloque_libre, contar_libres, settear_posicion, indice,
  leer_en, escribir_en, Respuesta, bloque_de_punteros, escribir_puntero, agregar_bloque_libre,
}
use linuse_tp_os.Sac.Blocks.Search.{PrimerCero, primer_cero-PrimerCero, contar_libres-set}
use linuse_tp_os.Sac.Growing.{menos, agrandar, agregar_bloques}

>>=-cong :
    {A B : Type 0} (m : Resultado A) (f g : A → Resultado B)
    → ((a : A) → m ≡ ok a → f a ≡ g a)
    → (m >>= f) ≡ (m >>= g)
>>=-cong (ok a) f g h = h a refl
>>=-cong (fallo e) f g h = refl

-- A block is taken, or none is free.
obtener_bloque_libre-Toma :
    (d : Disco)
    → (obtener_bloque_libre d ≡ fallo indeterminado)
      ⊎ ((r : Disco × ℕ) × (obtener_bloque_libre d ≡ ok r)
          × (suc (contar_libres r.0.bitmap) ≡ contar_libres d.bitmap))
unfolding obtener_bloque_libre
obtener_bloque_libre-Toma d = elim (Option-cases (primer_cero (primer_bloque d) 0 d.bitmap)) [
  | inl f ↦ inl (rw (f, obtener_bloque_libre) refl)
  | inr (i, f) ↦
      let (a, b, c) =
        subst (PrimerCero (primer_bloque d) d.bitmap) f
          (primer_cero-PrimerCero (primer_bloque d) d.bitmap) in
      inr (
        (record d { bitmap = set d.bitmap i true }, i),
        rw (f, obtener_bloque_libre) refl,
        contar_libres-set d.bitmap i b,
      )
]

-- No block becomes free.
abbrev Quedan : Disco → Disco → Type 0
Quedan d e = contar_libres e.bitmap ≤ contar_libres d.bitmap

obtener_bloque_libre-Quedan : (d : Disco) → Logra (λ r. Quedan d r.0) (obtener_bloque_libre d)
obtener_bloque_libre-Quedan d = elim (obtener_bloque_libre-Toma d) [
  | inl e ↦ rw e tt
  | inr (r, e, l) ↦ rw e (omega (arith, l))
]

bloque_de_punteros-Quedan :
    (nodo posicion : ℕ) (f : Archivo) (d : Disco)
    → Logra (λ r. Quedan d r.1) (bloque_de_punteros nodo posicion f d)
unfolding bloque_de_punteros
bloque_de_punteros-Quedan nodo posicion f d =
    let Q = λ (r : Archivo × Disco × ℕ). Quedan d r.1 in
    elim (Bool-cases (posicion == 0)) [
      | inl b ↦ rw b (
          Logra->>= (λ (r : Disco × ℕ). Quedan d r.0) Q (obtener_bloque_libre d) _
            (obtener_bloque_libre-Quedan d)
            λ r e q.
              Logra-resto Q (escribir_en f.bloques_indirectos nodo r.1) _
                λ b1 e1. Logra-resto Q (escribir_en b1 (suc nodo) 0) _ λ b2 e2. q)
      | inr b ↦ rw b (Logra-resto Q (leer_en f.bloques_indirectos nodo) _ λ a e. omega arith)
    ]

escribir_puntero-Quedan :
    (bloque posicion numero : ℕ) (d : Disco)
    → Logra (Quedan d) (escribir_puntero bloque posicion numero d)
unfolding escribir_puntero
escribir_puntero-Quedan bloque posicion numero d =
    elim (Option-cases (lookup bloque d.bloques_de_punteros)) [
      | inl e ↦ rw (e, escribir_puntero) tt
      | inr (ps, e) ↦
          rw (e, escribir_puntero)
            (Logra-resto (Quedan d) (escribir_en ps posicion numero) _ λ qs k. omega arith)
    ]

agregar_bloque_libre-Quedan :
    (f : Archivo) (numero : ℕ) (d : Disco)
    → Logra (λ r. Quedan d r.1) (agregar_bloque_libre f numero d)
unfolding agregar_bloque_libre
agregar_bloque_libre-Quedan f numero d =
    let Q = λ (r : Archivo × Disco × Respuesta). Quedan d r.1 in
    Logra-resto Q (indice (settear_posicion f.tamanio_archivo).0) _ λ nodo e.
      Logra-resto Q (indice (settear_posicion f.tamanio_archivo).1) _ λ posicion e1.
        elim (Bool-cases (nodo == 999 && posicion == 1023)) [
          | inl b ↦ rw b (omega arith)
          | inr b ↦ rw b (
              Logra-resto Q (leer_en f.bloques_indirectos nodo) _ λ actual e2.
                Logra->>= (λ (r : Archivo × Disco × ℕ). Quedan d r.1) Q
                  (bloque_de_punteros nodo posicion f d) _
                  (bloque_de_punteros-Quedan nodo posicion f d)
                  λ r e3 q.
                    Logra->>= (Quedan r.1) Q (escribir_puntero r.2 posicion numero r.1) _
                      (escribir_puntero-Quedan r.2 posicion numero r.1)
                      λ d2 e4 q2. omega (arith, q, q2))
        ]

-- With fuel for as many turns as there are free blocks, one more turn changes nothing.
pub agregar_bloques-suficiente :
    (n espacio size : ℕ) (f : Archivo) (d : Disco)
    → contar_libres d.bitmap ≤ n
    → agregar_bloques (suc n) espacio size f d ≡ agregar_bloques n espacio size f d
unfolding agregar_bloques
agregar_bloques-suficiente zero espacio size f d l = elim (obtener_bloque_libre-Toma d) [
  | inl e ↦ rw e refl
  | inr (r, e, k) ↦ absurd (omega (arith, k, l))
]
agregar_bloques-suficiente (suc n) espacio size f d l = elim (Bool-cases (leb espacio size)) [
  | inl b ↦ rw b (elim (obtener_bloque_libre-Toma d) [
    | inl e ↦ rw e refl
    | inr (r, e, k) ↦ rw e (
        >>=-cong (agregar_bloque_libre f r.1 r.0) _ _ λ q y.
          agregar_bloques-suficiente n espacio (menos size 4096) (agrandar 4096 q.0) q.1 (
            let z =
              Logra-ok (λ (t : Archivo × Disco × Respuesta). Quedan r.0 t.1) _ q
                (agregar_bloque_libre-Quedan f r.1 r.0) y in
            omega (arith, z, k, l)))
  ])
  | inr b ↦ rw b refl
]
