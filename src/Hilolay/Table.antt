-- ===== src/Hilolay/Table.antt =====
-- The table of control blocks (`ults` of Planificador/Hilolay/hilolay/hilolay_internal.c): what stands
-- in it follows from how many threads were created and which one runs.
use linuse_tp_os.Base.{
  ℕ, zero, suc, ◌+◌, ◌≤◌, ◌<◌, ◌≡◌, refl, ap, ◌∙◌, inl, inr, Bool, true, false, none, some, List,
  [], ◌∷◌, arith, ltb, ◌==◌, if◌then◌else◌, ==_iff, Bool-cases, ok, length, get_elem?, set,
  length-set, get_elem?-set_self, get_elem?-set_ne, get_elem?-lt,
}
use linuse_tp_os.Hilolay.{
  free, running, ready, Tcb, Hilolay, max_ults, main_thread_id, buscar_tcb, find_free_tcb, sin_usar,
  set_tcb, con_estado, hilolay_get_tid, sin_iniciar, swap_context,
}

-- The control block of index `i`, where `n` is the next number and the thread `c` runs.
abbrev pub tcb_de : ℕ → ℕ → ℕ → Tcb
tcb_de n c i =
    if i == c
    then record { id = i; state = running }
    else if ltb i n
    then record { id = i; state = ready }
    else record { id = 0; state = free }

pub record IsTabla (h : Hilolay) : Type 0 where
  pub longitud : length h.ults ≡ max_ults
  pub acotado : h.next_id ≤ max_ults
  pub corre : h.current_ult < h.next_id
  pub bloque : (i : ℕ) → i < max_ults → get_elem? h.ults i ≡ some (tcb_de h.next_id h.current_ult i)

buscar_tcb-primero :
    (q : Tcb → Bool) (k : ℕ) (ts : List Tcb) (i : ℕ) {t : Tcb}
    → get_elem? ts i ≡ some t
    → q t ≡ true
    → ((j : ℕ) (u : Tcb) → j < i → get_elem? ts j ≡ some u → q u ≡ false)
    → buscar_tcb q k ts ≡ some (k + i)
unfolding buscar_tcb
buscar_tcb-primero q k [] i e p f = cc
buscar_tcb-primero q k (u ∷ ts) zero {t} e p f =
    let w : u ≡ t = cc in rw w (rw p (ap some (omega arith)))
buscar_tcb-primero q k (u ∷ ts) (suc i) e p f = rw (f 0 u (omega arith) refl) (
    buscar_tcb-primero q (suc k) ts i e p (λ j v l g. f (suc j) v (omega arith) g)
    ∙ ap some (omega arith))

buscar_tcb-ninguno :
    (q : Tcb → Bool) (k : ℕ) (ts : List Tcb)
    → ((j : ℕ) (u : Tcb) → get_elem? ts j ≡ some u → q u ≡ false)
    → buscar_tcb q k ts ≡ none
unfolding buscar_tcb
buscar_tcb-ninguno q k [] f = refl
buscar_tcb-ninguno q k (u ∷ ts) f =
    rw (f 0 u refl) (buscar_tcb-ninguno q (suc k) ts (λ j v g. f (suc j) v g))

module _ (h : Hilolay) where
  -- The table once the running thread waits, and then once `i` runs.
  abbrev pub pausada : List Tcb
  pausada = set h.ults h.current_ult (record { id = h.current_ult; state = ready })

  abbrev pub cambiada : ℕ → List Tcb
  cambiada i = set pausada i (record { id = i; state = running })

module _ (h : Hilolay) (b : IsTabla h) where
  bloque-igual :
      (i : ℕ) {t : Tcb}
      → get_elem? h.ults i ≡ some t
      → (i < max_ults) × (t ≡ tcb_de h.next_id h.current_ult i)
  bloque-igual i {t} e =
      let l : i < max_ults = omega (arith, get_elem?-lt h.ults i e, b.longitud) in
      let w = b.bloque i l in (l, cc)

  pub find_free_tcb-Tabla :
      find_free_tcb h ≡ (if ltb h.next_id max_ults then some h.next_id else none)
  unfolding find_free_tcb
  find_free_tcb-Tabla = elim (Bool-cases (ltb h.next_id max_ults)) [
    | inl l ↦ rw l (
        buscar_tcb-primero _ 0 h.ults h.next_id (b.bloque h.next_id (ground arith))
          (ground (arith, b.corre)) (λ j u jl g. rw ((bloque-igual j g).1) (ground (arith, jl)))
        ∙ ap some (omega arith))
    | inr l ↦ rw l (
        buscar_tcb-ninguno _ 0 h.ults (λ j u g.
          rw ((bloque-igual j g).1) (let jl = (bloque-igual j g).0 in ground (arith, jl, l))))
  ]

  -- The number of a control block in use is its index, and no other has it.
  pub buscar_tcb-Tabla :
      (tid : ℕ)
      → buscar_tcb (λ u. u.id == tid) 0 h.ults ≡ (if ltb tid h.next_id then some tid else none)
  buscar_tcb-Tabla tid = elim (Bool-cases (ltb tid h.next_id)) [
    | inl l ↦ rw l (
        buscar_tcb-primero _ 0 h.ults tid (b.bloque tid (ground (arith, b.acotado)))
          (ground (arith, b.corre))
          (λ j u jl g. rw ((bloque-igual j g).1) (ground (arith, jl, b.corre)))
        ∙ ap some (omega arith))
    | inr l ↦ rw l (
        buscar_tcb-ninguno _ 0 h.ults
          (λ j u g. rw ((bloque-igual j g).1) (ground (arith, l, b.corre))))
  ]

  pub crear-Tabla :
      h.next_id < max_ults
      → IsTabla (set_tcb h.next_id h.next_id ready (record h { next_id = suc h.next_id }))
  unfolding set_tcb
  crear-Tabla l = record {
    longitud = rw length-set b.longitud;
    acotado = omega arith;
    corre = omega (arith, b.corre);
    bloque = λ i m. elim (Bool-cases (i == h.next_id)) [
      | inl e ↦
          let e' : i ≡ h.next_id = (==_iff i h.next_id).0 e in
          rw e' (
            get_elem?-set_self h.ults h.next_id _ (omega (arith, b.longitud))
            ∙ ground (arith, b.corre))
      | inr e ↦
          get_elem?-set_ne h.ults _ (λ x. ground (arith, e, ==_iff i h.next_id, x))
          ∙ b.bloque i m
          ∙ ground (arith, e, ==_iff i h.next_id)
    ];
  }

  pausada-bloque :
      (i : ℕ)
      → i < max_ults
      → get_elem? (pausada h) i
        ≡ some (
            if ltb i h.next_id
            then record { id = i; state = ready }
            else record { id = 0; state = free })
  pausada-bloque i m = elim (Bool-cases (i == h.current_ult)) [
    | inl e ↦
        let e' : i ≡ h.current_ult = (==_iff i h.current_ult).0 e in
        rw e' (
          get_elem?-set_self h.ults h.current_ult _ (omega (arith, b.longitud, b.corre, b.acotado))
          ∙ ground (arith, b.corre))
    | inr e ↦
        get_elem?-set_ne h.ults _ (λ x. ground (arith, e, ==_iff i h.current_ult, x))
        ∙ b.bloque i m
        ∙ ground (arith, e)
  ]

  pub swap_context-en :
      (i : ℕ)
      → i < h.next_id
      → swap_context i h ≡ ok (record h { ults = cambiada h i; current_ult = i })
  unfolding swap_context con_estado
  swap_context-en i l =
      let c = b.bloque h.current_ult (omega (arith, b.corre, b.acotado)) in
      let p = pausada-bloque i (omega (arith, b.acotado)) in
      let mismo : (h.current_ult == h.current_ult) ≡ true = ground arith in
      let puesto : ltb i h.next_id ≡ true = ground arith in rw (c, mismo, p, puesto)

  pub cambiada-Tabla :
      (i : ℕ) → i < h.next_id → IsTabla (record h { ults = cambiada h i; current_ult = i })
  cambiada-Tabla i l = record {
    longitud = rw (length-set, length-set) b.longitud;
    acotado = b.acotado;
    corre = l;
    bloque = λ j m. elim (Bool-cases (j == i)) [
      | inl e ↦
          let e' : j ≡ i = (==_iff j i).0 e in
          rw e' (
            get_elem?-set_self (pausada h) i _ (
              omega (
                arith,
                b.longitud,
                b.acotado,
                length-set h.ults h.current_ult (record { id = h.current_ult; state = ready }),
              ))
            ∙ ground arith)
      | inr e ↦
          get_elem?-set_ne (pausada h) _ (λ x. ground (arith, e, ==_iff j i, x))
          ∙ pausada-bloque j m
          ∙ ground (arith, e)
    ];
  }

  pub hilolay_get_tid-Tabla : hilolay_get_tid h ≡ ok h.current_ult
  unfolding hilolay_get_tid
  hilolay_get_tid-Tabla =
      let c = b.bloque h.current_ult (omega (arith, b.corre, b.acotado)) in
      let mismo : (h.current_ult == h.current_ult) ≡ true = ground arith in rw (c, mismo)

length-sin_usar : (n : ℕ) → length (sin_usar n) ≡ n
unfolding sin_usar
length-sin_usar zero = refl
length-sin_usar (suc n) = ap suc (length-sin_usar n)

get_elem?-sin_usar :
    (n i : ℕ) → i < n → get_elem? (sin_usar n) i ≡ some (record { id = 0; state = free })
unfolding sin_usar
get_elem?-sin_usar zero i h = absurd (omega arith)
get_elem?-sin_usar (suc n) zero h = refl
get_elem?-sin_usar (suc n) (suc i) h = get_elem?-sin_usar n i (omega arith)

pub inicial-Tabla : IsTabla (set_tcb 0 main_thread_id running sin_iniciar)
unfolding set_tcb sin_iniciar
inicial-Tabla = record {
  longitud = rw length-set (length-sin_usar max_ults);
  acotado = omega arith;
  corre = omega arith;
  bloque = λ i m. elim (Bool-cases (i == 0)) [
    | inl e ↦
        let e' : i ≡ 0 = (==_iff i 0).0 e in
        rw e' (
          get_elem?-set_self (sin_usar max_ults) 0 (record { id = 0; state = running })
            (omega (arith, length-sin_usar max_ults)))
    | inr e ↦
        get_elem?-set_ne (sin_usar max_ults) {i = 0} {j = i} (record { id = 0; state = running })
          (λ x. ground (arith, e, ==_iff i 0, x))
        ∙ get_elem?-sin_usar max_ults i m
        ∙ ground (arith, e)
  ];
}
