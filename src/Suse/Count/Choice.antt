-- ===== src/Suse/Count/Choice.antt =====
-- The threads under the choice of the next one (SUSE.c).
use linuse_tp_os.Base.{
  ℕ, ◌+◌, ◌≡◌, refl, ap, ◌∙◌, inl, inr, Bool, true, Option, none, some, List, [], ◌∷◌, ◌++◌, arith,
  Bool-cases, Option-cases, clave_nombre, clave_numero, dec, Logra, Logra->>=, Logra-desref,
  Logra-weaken, cuantos-append, lookup, suma,
}
use linuse_tp_os.Suse.Model.{
  Reales, Hilo, Programa, Suse, get_microtime, leido, con_programa, con_ready,
}
use linuse_tp_os.Suse.Schedule.{
  Ordenar, lapso, sale_de_exec, sigue_en_exec, entra_a_exec, poner_en_exec, desalojar, continuar,
  actualizar_estimacion, recalcular_exec, recalcular_estimacion, tiene_menor_estimacion,
  replanificar_hilos, elegir, calcular_siguiente_hilo, siguiente_a_ejecutar, sacar_candidato,
  despertar,
}
use linuse_tp_os.Suse.Count.{en_lista, en_opcion, en_programa, hilos, hilos-programa, hilos-ready}
use linuse_tp_os.Suse.Invariant.{IsCoherente, coherente_con}
use linuse_tp_os.Suse.Invariant.Choice.{IsOrdenar, estado_de}

module _ {E : Type 0} (q : ℕ → ℕ → Bool) where
  abbrev prueba : Hilo E → Bool
  prueba x = q x.pid x.tid

  -- One program and its Ready list are written.
  movido :
      (pid : ℕ) (p p' : Programa E) (l l' : List (Hilo E)) (s : Suse E)
      → lookup pid s.programas ≡ some p
      → lookup pid s.ready ≡ some l
      → hilos q (con_programa pid p' (con_ready pid l' s)) + en_programa q p + en_lista q l
        ≡ hilos q s + en_programa q p' + en_lista q l'
  movido pid p p' l l' s e f =
      omega (arith, hilos-programa q pid p p' (con_ready pid l' s) e, hilos-ready q pid l l' s f)

  poner_en_exec-hilos :
      (pid : ℕ) (h : Hilo E) (resto : List (Hilo E)) (p p' : Programa E) (s : Suse E)
      → lookup pid s.programas ≡ some p
      → lookup pid s.ready ≡ some (h ∷ resto)
      → p.exec ≡ none
      → p'.blocked ≡ p.blocked
      → hilos q (poner_en_exec pid h resto p' s) ≡ hilos q s
  unfolding poner_en_exec hilos
  poner_en_exec-hilos pid h resto p p' s e f x b = ground (
    arith,
    ap (en_opcion q) x,
    ap (suma (en_lista q)) b,
    movido pid p
        (record p' {
          exec = some (entra_a_exec (s.reloj (s.lecturas + 1)) (s.reloj (s.lecturas + 2)) h);
          cantidad_de_hilos_en_ready = dec p'.cantidad_de_hilos_en_ready;
        })
        (h ∷ resto) resto (record s { inicio_rafaga = get_microtime s; lecturas = s.lecturas + 3 })
        e f,
  )

  desalojar-hilos :
      (pid : ℕ) (e h : Hilo E) (resto : List (Hilo E)) (p : Programa E) (s : Suse E)
      → lookup pid s.programas ≡ some p
      → lookup pid s.ready ≡ some (h ∷ resto)
      → p.exec ≡ some e
      → hilos q (desalojar pid e h resto p s) ≡ hilos q s
  unfolding desalojar hilos
  desalojar-hilos pid e h resto p s g f x =
      let t = λ (i : ℕ). s.reloj (s.lecturas + i) in
      let e' = sale_de_exec (t 1) (t 2) e in
      ground (
        arith,
        ap (en_opcion q) x,
        cuantos-append prueba resto (e' ∷ []),
        movido pid p (record p { exec = some (entra_a_exec (t 3) (t 4) h) }) (h ∷ resto)
            (resto ++ e' ∷ [])
            (record s { inicio_rafaga = get_microtime s; lecturas = s.lecturas + 5 }) g f,
      )

  continuar-hilos :
      (pid : ℕ) (e : Hilo E) (p : Programa E) (s : Suse E)
      → lookup pid s.programas ≡ some p
      → p.exec ≡ some e
      → hilos q (continuar pid e p s) ≡ hilos q s
  unfolding continuar hilos
  continuar-hilos pid e p s g x = ground (
    arith,
    ap (en_opcion q) x,
    hilos-programa q pid p
        (record p { exec = some (sigue_en_exec (get_microtime s) (s.reloj (s.lecturas + 1)) e) })
        (record s { lecturas = s.lecturas + 2 }) g,
  )

  sacar_candidato-hilos :
      (pid : ℕ) (l : List (Hilo E)) (p : Programa E) (s : Suse E)
      → lookup pid s.programas ≡ some p
      → lookup pid s.ready ≡ some l
      → p.exec ≡ none
      → Logra
          (λ r. hilos q r.0 ≡ hilos q s)
          (sacar_candidato pid l (record p { mutex_tomado = true }) s)
  unfolding sacar_candidato
  sacar_candidato-hilos pid [] p s e f x = tt
  sacar_candidato-hilos pid (h ∷ r) p s e f x =
      poner_en_exec-hilos pid h r p (record p { mutex_tomado = true }) s e f x refl

  pub despertar-hilos :
      (pid : ℕ) (s : Suse E)
      → IsCoherente s
      → Logra (λ r. hilos q r.0 ≡ hilos q s) (despertar pid s)
  unfolding despertar
  despertar-hilos pid s c =
      Logra-desref (λ r. hilos q r.0 ≡ hilos q s) (lookup pid s.programas) _
        λ p e.
          Logra-desref (λ r. hilos q r.0 ≡ hilos q s) (lookup pid s.ready) _
            λ l f.
              let k = coherente_con s.programas s.ready c pid p l e f in
              elim (Bool-cases p.mutex_tomado) [
                | inl m ↦ rw m tt
                | inr m ↦ rw m (sacar_candidato-hilos pid l p s e f (k.1 (ground arith)))
              ]

module _ {E : Type 0} (q : ℕ → ℕ → Bool) (R : Reales E) where
  elegir-hilos :
      (pid : ℕ) (o : Option (Hilo E)) (l : List (Hilo E)) (p : Programa E) (s : Suse E)
      → lookup pid s.programas ≡ some p
      → lookup pid s.ready ≡ some l
      → p.exec ≡ o
      → hilos q (estado_de (elegir R pid o l p s)) ≡ hilos q s
  unfolding elegir
  elegir-hilos pid (some e) [] p s g f x = continuar-hilos q pid e p s g x
  elegir-hilos pid (some e) (h ∷ r) p s g f x =
      elim (Bool-cases (R.menor h.estimacion e.estimacion)) [
        | inl m ↦ rw m (desalojar-hilos q pid e h r p s g f x)
        | inr m ↦ rw m (continuar-hilos q pid e p s g x)
      ]
  elegir-hilos pid none [] p s g f x =
      omega (arith, hilos-programa q pid p (record p { esta_bloqueado = true }) s g)
  elegir-hilos pid none (h ∷ r) p s g f x = poner_en_exec-hilos q pid h r p p s g f x refl

  calcular_siguiente_hilo-hilos :
      (pid : ℕ) (s : Suse E)
      → Logra (λ r. hilos q (estado_de r) ≡ hilos q s) (calcular_siguiente_hilo R pid s)
  unfolding calcular_siguiente_hilo
  calcular_siguiente_hilo-hilos pid s =
      Logra-desref (λ r. hilos q (estado_de r) ≡ hilos q s) (lookup pid s.ready) _
        λ l f.
          Logra-desref (λ r. hilos q (estado_de r) ≡ hilos q s) (lookup pid s.programas) _
            λ p e. elegir-hilos pid p.exec l p s e f refl

  recalcular_exec-hilos :
      (pid : ℕ) (o : Option (Hilo E)) (p : Programa E) (s : Suse E)
      → lookup pid s.programas ≡ some p
      → p.exec ≡ o
      → hilos q (recalcular_exec R pid p o s) ≡ hilos q s
  unfolding recalcular_exec hilos
  recalcular_exec-hilos pid none p s e x = refl
  recalcular_exec-hilos pid (some h) p s e x =
      let h' =
        actualizar_estimacion R (record h { rafaga = lapso (get_microtime s) s.inicio_rafaga }) in
      ground (
        arith,
        ap (en_opcion q) x,
        hilos-programa q pid p (record p { exec = some h' }) (leido s) e,
      )

  recalcular_estimacion-hilos :
      (pid : ℕ) (s : Suse E) → hilos q (recalcular_estimacion R pid s) ≡ hilos q s
  unfolding recalcular_estimacion
  recalcular_estimacion-hilos pid s = elim (Option-cases (lookup pid s.programas)) [
    | inl e ↦ rw (e, recalcular_estimacion) refl
    | inr (p, e) ↦ rw (e, recalcular_estimacion) (recalcular_exec-hilos pid p.exec p s e refl)
  ]

  replanificar_hilos-hilos :
      (ordenar : Ordenar E)
      → IsOrdenar ordenar
      → (pid : ℕ) (s : Suse E)
      → Logra (λ t. hilos q t ≡ hilos q s) (replanificar_hilos R ordenar pid s)
  unfolding replanificar_hilos
  replanificar_hilos-hilos ordenar o pid s =
      Logra-desref (λ t. hilos q t ≡ hilos q s) (lookup pid s.ready) _
        λ l f. omega (
          arith,
          hilos-ready q pid l (ordenar (tiene_menor_estimacion R) l) s f,
          o.permuta (tiene_menor_estimacion R) (λ h. q h.pid h.tid) l,
        )

  -- Where `siguienteAEjecutar` ends, the server holds as many threads as before, of every set of
  -- programs and thread numbers, given a sort that permutes.
  pub siguiente_a_ejecutar-hilos :
      (ordenar : Ordenar E)
      → IsOrdenar ordenar
      → (pid : ℕ) (s : Suse E)
      → Logra (λ r. hilos q (estado_de r) ≡ hilos q s) (siguiente_a_ejecutar R ordenar pid s)
  unfolding siguiente_a_ejecutar
  siguiente_a_ejecutar-hilos ordenar o pid s =
      let s0 = recalcular_estimacion R pid s in
      Logra->>= (λ t. hilos q t ≡ hilos q s0) (λ r. hilos q (estado_de r) ≡ hilos q s)
        (replanificar_hilos R ordenar pid s0) _ (replanificar_hilos-hilos ordenar o pid s0)
        λ t _ k.
          Logra-weaken (λ r. hilos q (estado_de r) ≡ hilos q t) _ _
            (calcular_siguiente_hilo-hilos pid t) λ r m. m ∙ k ∙ recalcular_estimacion-hilos pid s
