-- ===== src/Hilolay/Calls.antt =====
-- What each operation of the library does to a table of control blocks that is in order
-- (Planificador/Hilolay/hilolay/hilolay_internal.c), and the states that a program can bring it to.
use linuse_tp_os.Base.{
  ℕ, suc, ◌+◌, ◌≤◌, ◌≡◌, refl, ap, ◌∙◌, inl, inr, none, some, List, [], ◌∷◌, arith, ltb, leb,
  if◌then◌else◌, Bool-cases, pos, negsuc, puntero_nulo, Resultado, ok, fallo, ◌>>=◌,
  Resultado-cases, Logra, Logra->>=, Logra-weaken,
}
use linuse_tp_os.Hilolay.{
  ready, Hilolay, max_ults, main_thread_id, HilolayOperations, set_tcb, init_internal,
  hilolay_create, get_next_tid, hilolay_yield, hilolay_join, hilolay_wait, hilolay_signal,
  hilolay_return, terminar,
}
use linuse_tp_os.Hilolay.Table.{
  IsTabla, cambiada, find_free_tcb-Tabla, buscar_tcb-Tabla, crear-Tabla, swap_context-en,
  cambiada-Tabla, hilolay_get_tid-Tabla, inicial-Tabla,
}

-- What a program does with the library.
pub data Llamada : Type 0 where
  crea cede vuelve termina : Llamada
  une : ℕ → Llamada
  espera_en avisa_en : List ℕ → Llamada

module _ {S : Type 0} (main_ops : HilolayOperations S) where
  pub hilolay_create-Crea :
      (s : S) (h : Hilolay)
      → IsTabla h
      → hilolay_create main_ops s h ≡ (
          if ltb h.next_id max_ults
          then (do
            t ← main_ops.suse_create h.next_id s
            ok (
              (t, set_tcb h.next_id h.next_id ready (record h { next_id = suc h.next_id })),
              (pos 0, some h.next_id),
            ))
          else ok ((s, h), (negsuc 0, none)))
  unfolding hilolay_create
  hilolay_create-Crea s h b = elim (Bool-cases (ltb h.next_id max_ults)) [
    | inl l ↦ rw (hilolay_create, find_free_tcb-Tabla h b, l)
    | inr l ↦ rw (hilolay_create, find_free_tcb-Tabla h b, l)
  ]

  -- Where the planner answers a thread, `hilolay_yield` leaves that thread running, if it was created,
  -- and goes through a NULL pointer if it was not.
  pub hilolay_yield-Cede :
      (s t : S) (h : Hilolay) (tid : ℕ)
      → IsTabla h
      → main_ops.suse_schedule_next s ≡ ok (t, tid)
      → hilolay_yield main_ops s h ≡ (
          if ltb tid h.next_id
          then ok (t, record h { ults = cambiada h tid; current_ult = tid })
          else fallo puntero_nulo)
  unfolding hilolay_yield get_next_tid
  hilolay_yield-Cede s t h tid b e = elim (Bool-cases (ltb tid h.next_id)) [
    | inl l ↦ rw (e, buscar_tcb-Tabla h b tid, l, swap_context-en h b tid (ground arith))
    | inr l ↦ rw (e, buscar_tcb-Tabla h b tid, l)
  ]

  -- The table is in order, and `n` is the next number.
  abbrev Sigue : ℕ → S × Hilolay → Type 0
  Sigue n r = IsTabla r.1 × (r.1.next_id ≡ n)

  hilolay_yield-Tabla :
      (s : S) (h : Hilolay) → IsTabla h → Logra (Sigue h.next_id) (hilolay_yield main_ops s h)
  unfolding hilolay_yield
  hilolay_yield-Tabla s h b = elim (Resultado-cases (main_ops.suse_schedule_next s)) [
    | inl ((t, tid), e) ↦ elim (Bool-cases (ltb tid h.next_id)) [
      | inl l ↦
          rw (hilolay_yield-Cede s t h tid b e, l) (cambiada-Tabla h b tid (ground arith), refl)
      | inr l ↦ rw (hilolay_yield-Cede s t h tid b e, l) tt
    ]
    | inr (x, e) ↦ rw (hilolay_yield, get_next_tid, e) tt
  ]

  -- An operation followed by `hilolay_yield`.
  seguida-Tabla :
      (m : Resultado S) (h : Hilolay)
      → IsTabla h
      → Logra (Sigue h.next_id) (m >>= λ t. hilolay_yield main_ops t h)
  seguida-Tabla (ok t) h b = hilolay_yield-Tabla t h b
  seguida-Tabla (fallo x) h b = tt

  -- One call of the library by the program.
  unfoldable pub llamar : Llamada → S → Hilolay → Resultado (S × Hilolay)
  llamar crea s h = do (r, a) ← hilolay_create main_ops s h; ok r
  llamar cede s h = hilolay_yield main_ops s h
  llamar vuelve s h = hilolay_return main_ops s h
  llamar termina s h = terminar main_ops s h
  llamar (une tid) s h = hilolay_join main_ops tid s h
  llamar (espera_en name) s h = hilolay_wait main_ops name s h
  llamar (avisa_en name) s h = hilolay_signal main_ops name s h

  -- The next number after a call: only a creation that finds a control block takes one.
  abbrev siguiente : Llamada → ℕ → ℕ
  siguiente crea n = if ltb n max_ults then suc n else n
  siguiente cede n = n
  siguiente vuelve n = n
  siguiente termina n = n
  siguiente (une tid) n = n
  siguiente (espera_en name) n = n
  siguiente (avisa_en name) n = n

  crea-Tabla :
      (s : S) (h : Hilolay) → IsTabla h → Logra (Sigue (siguiente crea h.next_id)) (llamar crea s h)
  unfolding llamar set_tcb
  crea-Tabla s h b = elim (Bool-cases (ltb h.next_id max_ults)) [
    | inl l ↦
        rw (hilolay_create-Crea s h b, l)
          (elim (Resultado-cases (main_ops.suse_create h.next_id s)) [
            | inl (t, e) ↦ rw e (crear-Tabla h b (ground arith), refl)
            | inr (x, e) ↦ rw e tt
          ])
    | inr l ↦ rw (hilolay_create-Crea s h b, l) (b, refl)
  ]

  llamar-Tabla :
      (c : Llamada) (s : S) (h : Hilolay)
      → IsTabla h
      → Logra (Sigue (siguiente c h.next_id)) (llamar c s h)
  unfolding llamar hilolay_return terminar hilolay_join hilolay_wait hilolay_signal
  llamar-Tabla crea s h b = crea-Tabla s h b
  llamar-Tabla cede s h b = hilolay_yield-Tabla s h b
  llamar-Tabla vuelve s h b =
      rw (hilolay_get_tid-Tabla h b) (elim (Resultado-cases (main_ops.suse_close h.current_ult s)) [
        | inl (t, e) ↦ rw e (b, refl)
        | inr (x, e) ↦ rw e tt
      ])
  llamar-Tabla termina s h b =
      rw (hilolay_get_tid-Tabla h b) (elim (Resultado-cases (main_ops.suse_close h.current_ult s)) [
        | inl (t, e) ↦ rw e (hilolay_yield-Tabla t h b)
        | inr (x, e) ↦ rw e tt
      ])
  llamar-Tabla (une tid) s h b = seguida-Tabla (main_ops.suse_join tid s) h b
  llamar-Tabla (espera_en name) s h b =
      rw (hilolay_get_tid-Tabla h b) (seguida-Tabla (main_ops.suse_wait h.current_ult name s) h b)
  llamar-Tabla (avisa_en name) s h b =
      rw (hilolay_get_tid-Tabla h b) (seguida-Tabla (main_ops.suse_signal h.current_ult name s) h b)

  -- The calls of a program, one after the other.
  unfoldable pub llamadas : List Llamada → S → Hilolay → Resultado (S × Hilolay)
  llamadas [] s h = ok (s, h)
  llamadas (c ∷ cs) s h = do (t, h1) ← llamar c s h; llamadas cs t h1

  abbrev pub creaciones : List Llamada → ℕ
  creaciones [] = 0
  creaciones (crea ∷ cs) = suc (creaciones cs)
  creaciones (cede ∷ cs) = creaciones cs
  creaciones (vuelve ∷ cs) = creaciones cs
  creaciones (termina ∷ cs) = creaciones cs
  creaciones (une tid ∷ cs) = creaciones cs
  creaciones (espera_en name ∷ cs) = creaciones cs
  creaciones (avisa_en name ∷ cs) = creaciones cs

  abbrev tras : List Llamada → ℕ → ℕ
  tras cs n = if leb max_ults (n + creaciones cs) then max_ults else n + creaciones cs

  tras-siguiente :
      (c : Llamada) (cs : List Llamada) (n : ℕ)
      → n ≤ max_ults
      → tras cs (siguiente c n) ≡ tras (c ∷ cs) n
  tras-siguiente crea cs n h = ground arith
  tras-siguiente cede cs n h = refl
  tras-siguiente vuelve cs n h = refl
  tras-siguiente termina cs n h = refl
  tras-siguiente (une tid) cs n h = refl
  tras-siguiente (espera_en name) cs n h = refl
  tras-siguiente (avisa_en name) cs n h = refl

  llamadas-Tabla :
      (cs : List Llamada) (s : S) (h : Hilolay)
      → IsTabla h
      → Logra (Sigue (tras cs h.next_id)) (llamadas cs s h)
  unfolding llamadas
  llamadas-Tabla [] s h b = (b, ground (arith, b.acotado))
  llamadas-Tabla (c ∷ cs) s h b =
      Logra->>= (Sigue (siguiente c h.next_id)) (Sigue (tras (c ∷ cs) h.next_id)) (llamar c s h) _
        (llamar-Tabla c s h b)
        λ (t, h1) e (b1, n).
          Logra-weaken (Sigue (tras cs h1.next_id)) (Sigue (tras (c ∷ cs) h.next_id))
            (llamadas cs t h1) (llamadas-Tabla cs t h1 b1)
            λ r (br, m). (br, m ∙ ap (tras cs) n ∙ tras-siguiente c cs h.next_id b.acotado)

  -- The states that a program can bring the library to.
  unfoldable pub correr : List Llamada → S → Resultado (S × Hilolay)
  unfolding llamadas
  correr cs s = do (t, h) ← init_internal main_ops s; llamadas cs t h

  -- From its start, after any calls of a program that come back, the library has control blocks whose
  -- numbers are their indices, one running and the other created ones ready, and the next number is one
  -- more than the creations asked for, up to MAX_ULTS: threads that ended free none.
  pub correr-Tabla :
      (cs : List Llamada) (s : S)
      → Logra
          (λ (r : S × Hilolay).
            IsTabla r.1
            × (r.1.next_id
                ≡ (if leb max_ults (1 + creaciones cs) then max_ults else 1 + creaciones cs)))
          (correr cs s)
  unfolding correr init_internal
  correr-Tabla cs s = elim (Resultado-cases (main_ops.suse_create main_thread_id s)) [
    | inl (t, e) ↦ rw e (llamadas-Tabla cs t _ inicial-Tabla)
    | inr (x, e) ↦ rw e tt
  ]
