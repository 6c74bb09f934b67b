-- ===== src/Suse/Invariant/Choice.antt =====
-- The invariant under `siguienteAEjecutar` and what follows the wait on a program's mutex (SUSE.c).
use linuse_tp_os.Base.{
  ℕ, ◌≡◌, refl, sym, ap, ◌∙◌, inl, inr, Bool, true, false, Option, none, some, List, [], ◌∷◌, arith,
  ==_iff, Bool-cases, Option-cases, clave_nombre, clave_numero, pos, dec, dec-pos, Logra, Logra->>=,
  Logra-desref, length, length-append, cuantos, cuantos-true, Ordenada, lookup, lookup-insert,
}
use linuse_tp_os.Suse.Model.{Reales, Hilo, Programa, Suse, leido, con_programa}
use linuse_tp_os.Suse.Schedule.{
  Eleccion, elegido, bloqueado, Ordenar, poner_en_exec, desalojar, continuar, recalcular_exec,
  recalcular_estimacion, tiene_menor_estimacion, replanificar_hilos, elegir,
  calcular_siguiente_hilo, siguiente_a_ejecutar, sacar_candidato, despertar,
}
use linuse_tp_os.Suse.Invariant.{
  espera_respuesta, IsCoherente, coherente_en, Coherencia-insert, coherente_con,
  Coherencia-insert_at, Coherencia-insert_both, Coherencia-permute, SonCoherentes-exec,
}

-- `list_sort` of the commons library: it permutes the list, and orders it where the comparison is
-- total and transitive.
pub record IsOrdenar {E : Type 0} (ordenar : Ordenar E) : Type 0 where
  pub permuta :
      (c : Hilo E → Hilo E → Bool) (q : Hilo E → Bool) (l : List (Hilo E))
      → cuantos q (ordenar c l) ≡ cuantos q l
  pub ordena :
      (c : Hilo E → Hilo E → Bool)
      → ((a b : Hilo E) → c a b ≡ false → c b a ≡ true)
      → ((a b d : Hilo E) → c a b ≡ true → c b d ≡ true → c a d ≡ true)
      → (l : List (Hilo E)) → Ordenada c (ordenar c l)

module _ {E : Type 0} where
  -- The program exists and does not wait for an answer, so it can ask.
  abbrev pub PuedePedir : ℕ → Suse E → Type 0
  PuedePedir pid s = (p : Programa E) → lookup pid s.programas ≡ some p → espera_respuesta p ≡ false

  abbrev pub estado_de : Eleccion E → Suse E
  estado_de (elegido tid s) = s
  estado_de (bloqueado s) = s

  pub length-ordenar :
      (ordenar : Ordenar E)
      → IsOrdenar ordenar
      → (c : Hilo E → Hilo E → Bool) (l : List (Hilo E)) → length (ordenar c l) ≡ length l
  length-ordenar ordenar o c l =
      sym (cuantos-true (ordenar c l)) ∙ o.permuta c (λ _. true) l ∙ cuantos-true l

  PuedePedir-insert :
      (pid : ℕ) (p : Programa E) (s : Suse E)
      → espera_respuesta p ≡ false
      → PuedePedir pid (con_programa pid p s)
  PuedePedir-insert pid p s w q e =
      let f : some p ≡ some q =
        rw (lookup-insert pid pid p s.programas, (==_iff pid pid).1 refl) at e in
      ground arith

  poner_en_exec-IsCoherente :
      (pid : ℕ) (h : Hilo E) (resto : List (Hilo E)) (p : Programa E) (s : Suse E)
      → IsCoherente s
      → p.cantidad_de_hilos_en_ready ≡ pos (length (h ∷ resto))
      → espera_respuesta p ≡ false
      → IsCoherente (poner_en_exec pid h resto p s)
  unfolding poner_en_exec
  poner_en_exec-IsCoherente pid h resto p s c n w =
      Coherencia-insert_both s.programas s.ready c pid _ resto
        (ap dec n ∙ dec-pos (length resto), (λ v. cc), ground arith)

  desalojar-IsCoherente :
      (pid : ℕ) (e h : Hilo E) (resto : List (Hilo E)) (p : Programa E) (s : Suse E)
      → IsCoherente s
      → p.cantidad_de_hilos_en_ready ≡ pos (length (h ∷ resto))
      → espera_respuesta p ≡ false
      → IsCoherente (desalojar pid e h resto p s)
  unfolding desalojar
  desalojar-IsCoherente pid e h resto p s c n w =
      Coherencia-insert_both s.programas s.ready c pid _ _ (
        n ∙ ap pos (omega (arith, length-append resto (e ∷ []), length-append {0} resto)),
        (λ v. cc),
        ground arith,
      )

  continuar-IsCoherente :
      (pid : ℕ) (e : Hilo E) (l : List (Hilo E)) (p : Programa E) (s : Suse E)
      → IsCoherente s
      → lookup pid s.ready ≡ some l
      → p.cantidad_de_hilos_en_ready ≡ pos (length l)
      → espera_respuesta p ≡ false
      → IsCoherente (continuar pid e p s)
  unfolding continuar
  continuar-IsCoherente pid e l p s c g n w =
      Coherencia-insert_at s.programas s.ready c pid _ l g (n, (λ v. cc), ground arith)

  bloquear-IsCoherente :
      (pid : ℕ) (l : List (Hilo E)) (p : Programa E) (s : Suse E)
      → IsCoherente s
      → lookup pid s.ready ≡ some l
      → p.cantidad_de_hilos_en_ready ≡ pos (length l)
      → p.exec ≡ none
      → espera_respuesta p ≡ false
      → IsCoherente (con_programa pid (record p { esta_bloqueado = true }) s)
  bloquear-IsCoherente pid l p s c g n x w =
      Coherencia-insert_at s.programas s.ready c pid _ l g (n, (λ v. x), ground arith)

  despertar_con-IsCoherente :
      (pid : ℕ) (l : List (Hilo E)) (p : Programa E) (s : Suse E)
      → IsCoherente s
      → p.cantidad_de_hilos_en_ready ≡ pos (length l)
      → p.esta_bloqueado ≡ false
      → Logra (λ r. IsCoherente r.0) (sacar_candidato pid l (record p { mutex_tomado = true }) s)
  unfolding sacar_candidato
  despertar_con-IsCoherente pid [] p s c n b = tt
  despertar_con-IsCoherente pid (h ∷ r) p s c n b =
      poner_en_exec-IsCoherente pid h r (record p { mutex_tomado = true }) s c n (ground arith)

  pub despertar-IsCoherente :
      (pid : ℕ) (s : Suse E) → IsCoherente s → Logra (λ r. IsCoherente r.0) (despertar pid s)
  unfolding despertar
  despertar-IsCoherente pid s c =
      Logra-desref (λ r. IsCoherente r.0) (lookup pid s.programas) _
        λ p e.
          Logra-desref (λ r. IsCoherente r.0) (lookup pid s.ready) _
            λ l f.
              let k = coherente_con s.programas s.ready c pid p l e f in
              elim (Bool-cases p.mutex_tomado) [
                | inl m ↦ rw m tt
                | inr m ↦ rw m (despertar_con-IsCoherente pid l p s c k.0 (k.2 m))
              ]

module _ {E : Type 0} (R : Reales E) where
  elegir-IsCoherente :
      (pid : ℕ) (o : Option (Hilo E)) (l : List (Hilo E)) (p : Programa E) (s : Suse E)
      → IsCoherente s
      → lookup pid s.ready ≡ some l
      → p.cantidad_de_hilos_en_ready ≡ pos (length l)
      → p.exec ≡ o
      → espera_respuesta p ≡ false
      → IsCoherente (estado_de (elegir R pid o l p s))
  unfolding elegir
  elegir-IsCoherente pid (some e) [] p s c g n x w = continuar-IsCoherente pid e [] p s c g n w
  elegir-IsCoherente pid (some e) (h ∷ r) p s c g n x w =
      elim (Bool-cases (R.menor h.estimacion e.estimacion)) [
        | inl m ↦ rw m (desalojar-IsCoherente pid e h r p s c n w)
        | inr m ↦ rw m (continuar-IsCoherente pid e (h ∷ r) p s c g n w)
      ]
  elegir-IsCoherente pid none [] p s c g n x w = bloquear-IsCoherente pid [] p s c g n x w
  elegir-IsCoherente pid none (h ∷ r) p s c g n x w = poner_en_exec-IsCoherente pid h r p s c n w

  calcular_siguiente_hilo-IsCoherente :
      (pid : ℕ) (s : Suse E)
      → IsCoherente s
      → PuedePedir pid s
      → Logra (λ r. IsCoherente (estado_de r)) (calcular_siguiente_hilo R pid s)
  unfolding calcular_siguiente_hilo
  calcular_siguiente_hilo-IsCoherente pid s c w =
      Logra-desref (λ r. IsCoherente (estado_de r)) (lookup pid s.ready) _
        λ l f.
          Logra-desref (λ r. IsCoherente (estado_de r)) (lookup pid s.programas) _
            λ p e.
              let k = coherente_con s.programas s.ready c pid p l e f in
              elegir-IsCoherente pid p.exec l p s c f k.0 refl (w p e)

  replanificar_hilos-IsCoherente :
      (ordenar : Ordenar E)
      → IsOrdenar ordenar
      → (pid : ℕ) (s : Suse E) → IsCoherente s
      → PuedePedir pid s
      → Logra (λ t. IsCoherente t × PuedePedir pid t) (replanificar_hilos R ordenar pid s)
  unfolding replanificar_hilos
  replanificar_hilos-IsCoherente ordenar o pid s c w =
      Logra-desref (λ t. IsCoherente t × PuedePedir pid t) (lookup pid s.ready) _
        λ l f. (
          Coherencia-permute s.programas s.ready pid l _ c f
              (length-ordenar ordenar o (tiene_menor_estimacion R) l),
          w,
        )

  recalcular_exec-IsCoherente :
      (pid : ℕ) (o : Option (Hilo E)) (p : Programa E) (s : Suse E)
      → IsCoherente s
      → lookup pid s.programas ≡ some p
      → p.exec ≡ o
      → IsCoherente (recalcular_exec R pid p o s)
  unfolding recalcular_exec
  recalcular_exec-IsCoherente pid none p s c e x = c
  recalcular_exec-IsCoherente pid (some h) p s c e x =
      Coherencia-insert s.programas s.ready c pid _ (
        SonCoherentes-exec p (record p { exec = some _ }) h _ x
          (coherente_en s.programas s.ready c pid p e) refl refl refl)

  recalcular_estimacion-IsCoherente :
      (pid : ℕ) (s : Suse E) → IsCoherente s → IsCoherente (recalcular_estimacion R pid s)
  unfolding recalcular_estimacion
  recalcular_estimacion-IsCoherente pid s c = elim (Option-cases (lookup pid s.programas)) [
    | inl e ↦ rw (e, recalcular_estimacion) c
    | inr (p, e) ↦
        rw (e, recalcular_estimacion) (recalcular_exec-IsCoherente pid p.exec p s c e refl)
  ]

  recalcular_exec-PuedePedir :
      (pid : ℕ) (o : Option (Hilo E)) (p : Programa E) (s : Suse E)
      → lookup pid s.programas ≡ some p
      → PuedePedir pid s
      → PuedePedir pid (recalcular_exec R pid p o s)
  unfolding recalcular_exec
  recalcular_exec-PuedePedir pid none p s e w = w
  recalcular_exec-PuedePedir pid (some h) p s e w =
      PuedePedir-insert pid (record p { exec = some _ }) (leido s) (w p e)

  recalcular_estimacion-PuedePedir :
      (pid : ℕ) (s : Suse E) → PuedePedir pid s → PuedePedir pid (recalcular_estimacion R pid s)
  unfolding recalcular_estimacion
  recalcular_estimacion-PuedePedir pid s w = elim (Option-cases (lookup pid s.programas)) [
    | inl e ↦ rw (e, recalcular_estimacion) w
    | inr (p, e) ↦ rw (e, recalcular_estimacion) (recalcular_exec-PuedePedir pid p.exec p s e w)
  ]

  pub siguiente_a_ejecutar-IsCoherente :
      (ordenar : Ordenar E)
      → IsOrdenar ordenar
      → (pid : ℕ) (s : Suse E) → IsCoherente s
      → PuedePedir pid s
      → Logra (λ r. IsCoherente (estado_de r)) (siguiente_a_ejecutar R ordenar pid s)
  unfolding siguiente_a_ejecutar
  siguiente_a_ejecutar-IsCoherente ordenar o pid s c w =
      let s' = recalcular_estimacion R pid s in
      Logra->>= (λ t. IsCoherente t × PuedePedir pid t) (λ r. IsCoherente (estado_de r))
        (replanificar_hilos R ordenar pid s') _
        (replanificar_hilos-IsCoherente ordenar o pid s' (recalcular_estimacion-IsCoherente pid s c)
          (recalcular_estimacion-PuedePedir pid s w))
        λ t _ k. calcular_siguiente_hilo-IsCoherente pid t k.0 k.1
