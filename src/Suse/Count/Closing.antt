-- ===== src/Suse/Count/Closing.antt =====
-- The threads under the metrics, join, close and the departure of a program (SUSE.c).
use linuse_tp_os.Base.{
  ℕ, ◌+◌, ◌≤◌, ◌≡◌, refl, sym, ap, ◌∙◌, subst, inl, inr, Bool, Option, none, some, List, [], ◌∷◌,
  ◌++◌, arith, ◌==◌, ==_iff, Bool-cases, Option-cases, clave_nombre, clave_numero, inc, dec, Logra,
  Logra->>=, Logra-desref, Logra-weaken, cuantos-append, Dict, lookup, insert, lookup-insert,
  lookup-insert_self, valor, suma, suma-insert, suma-erase,
}
use linuse_tp_os.Suse.Model.{Hilo, Programa, Suse, get_microtime, leido, con_programa, con_ready}
use linuse_tp_os.Suse.Thread.{
  termino_el_hilo, bloqueado_por_algun_hilo, lista_de, poner_en_blocked_por_hilo, join_exec,
  realizar_join, liberar_hilo, liberar_lista, liberar_bloqueados_por_el_hilo, pasar_a_exit,
  sacar_de_exec, realizar_close,
}
use linuse_tp_os.Suse.Metrics.{tomar_metricas}
use linuse_tp_os.Suse.Metrics.Frame.{esqueleto, tomar_metricas-Conserva}
use linuse_tp_os.Suse.Program.{limpiar_estructuras, desconectar}
use linuse_tp_os.Suse.Count.{
  en_lista, en_opcion, en_programa, hilos, hilos-esqueleto, hilos-programa, hilos-ready,
}

module _ {E : Type 0} (q : ℕ → ℕ → Bool) where
  lista_de-valor :
      (k : ℕ) (d : Dict ℕ (List (Hilo E)))
      → valor (en_lista q) (lookup k d) ≡ en_lista q (lista_de k d)
  lista_de-valor k d = elim (Option-cases (lookup k d)) [
    | inl e ↦ rw (e, lista_de) refl
    | inr (l, e) ↦ rw (e, lista_de) refl
  ]

  -- A list of a dictionary, or a new one, is replaced.
  suma-lista_de :
      (k : ℕ) (l : List (Hilo E)) (d : Dict ℕ (List (Hilo E)))
      → suma (en_lista q) (insert k l d) + en_lista q (lista_de k d)
        ≡ suma (en_lista q) d + en_lista q l
  suma-lista_de k l d = omega (arith, suma-insert (en_lista q) k l d, lista_de-valor k d)

  join_exec-hilos :
      (pid tid : ℕ) (p : Programa E) (o : Option (Hilo E)) (s : Suse E)
      → lookup pid s.programas ≡ some p
      → p.exec ≡ o
      → hilos q (join_exec pid tid p o s) ≡ hilos q s
  unfolding join_exec poner_en_blocked_por_hilo
  join_exec-hilos pid tid p none s e x = refl
  join_exec-hilos pid tid p (some h) s e x = elim (Bool-cases (termino_el_hilo tid s)) [
    | inl b ↦ rw b refl
    | inr b ↦ rw b (
        omega (
          arith,
          ap (en_opcion q) x,
          suma-lista_de tid (lista_de tid p.blocked ++ h ∷ []) p.blocked,
          cuantos-append (λ (y : Hilo E). q y.pid y.tid) (lista_de tid p.blocked) (h ∷ []),
          hilos-programa q pid p (poner_en_blocked_por_hilo h tid p) s e,
        ))
  ]

  pub realizar_join-hilos :
      (pid tid : ℕ) (s : Suse E) → hilos q (realizar_join pid tid s) ≡ hilos q s
  unfolding realizar_join
  realizar_join-hilos pid tid s = elim (Option-cases (lookup pid s.programas)) [
    | inl e ↦ rw (e, realizar_join) refl
    | inr (p, e) ↦ rw (e, realizar_join) (join_exec-hilos pid tid p p.exec s e refl)
  ]

  pub tomar_metricas-hilos : (s : Suse E) → Logra (λ t. hilos q t ≡ hilos q s) (tomar_metricas s)
  tomar_metricas-hilos s =
      Logra-weaken (λ t. esqueleto t ≡ esqueleto s) _ (tomar_metricas s) (tomar_metricas-Conserva s)
        λ t e. sym (hilos-esqueleto q t) ∙ ap (hilos q) e ∙ hilos-esqueleto q s

  pub desconectar-hilos : (pid : ℕ) (s : Suse E) → hilos q (desconectar pid s) ≤ hilos q s
  unfolding desconectar limpiar_estructuras hilos
  desconectar-hilos pid s = omega (
    arith,
    suma-erase (en_lista q) pid s.exit,
    suma-erase (en_lista q) pid s.ready,
    suma-erase (en_programa q) pid s.programas,
  )

  -- Only the blocked lists and what a thread weighs matter when a joiner is freed: the program's lists
  -- are kept, and at most the thread `h` is added.
  abbrev Liberado : Hilo E → Suse E → Suse E → Type 0
  Liberado h s t =
      (hilos q t ≤ hilos q s + en_opcion q (some h))
      × ((pid : ℕ) (p' : Programa E)
          → lookup pid t.programas ≡ some p'
          → (p : Programa E) × (lookup pid s.programas ≡ some p) × (p'.blocked ≡ p.blocked))

  insert-blocked :
      (k j : ℕ) (p q' : Programa E) (d : Dict ℕ (Programa E)) (r : Programa E)
      → lookup k d ≡ some p
      → q'.blocked ≡ p.blocked
      → lookup j (insert k q' d) ≡ some r
      → (o : Programa E) × (lookup j d ≡ some o) × (r.blocked ≡ o.blocked)
  insert-blocked k j p q' d r e b f = elim (Bool-cases (k == j)) [
    | inl t ↦
        let i : k ≡ j = (==_iff k j).0 t in
        let w : some q' ≡ some r =
          sym (subst (λ z. lookup z (insert k q' d) ≡ some q') i (lookup-insert_self k q' d)) ∙ f in
        let w' : q' ≡ r = cc in
        (p, subst (λ z. lookup z d ≡ some p) i e, ap (λ (z : Programa E). z.blocked) (sym w') ∙ b)
    | inr t ↦ (r, rw (lookup-insert k j q' d, t) at f, refl)
  ]

  leido-hilos : (s : Suse E) → hilos q (leido s) ≡ hilos q s
  unfolding hilos
  leido-hilos s = refl

  liberar_hilo-Liberado : (h : Hilo E) (s : Suse E) → Logra (Liberado h s) (liberar_hilo h s)
  unfolding liberar_hilo
  liberar_hilo-Liberado h s = Logra-desref (Liberado h s) (lookup h.pid s.programas) _ λ p e.
      elim (Bool-cases (bloqueado_por_algun_hilo h p)) [
        | inl b ↦ rw b (omega arith, λ j r f. (r, f, refl))
        | inr b ↦ rw b (
            Logra-desref (Liberado h s) (lookup h.pid s.ready) _ λ l f.
              let h' = record h { timestamp_ready = get_microtime s } in
              let p' = record p {
                cantidad_de_hilos_en_blocked = dec p.cantidad_de_hilos_en_blocked;
                cantidad_de_hilos_en_ready = inc p.cantidad_de_hilos_en_ready;
              } in
              (
                ground (
                  arith,
                  cuantos-append (λ (y : Hilo E). q y.pid y.tid) l (h' ∷ []),
                  hilos-ready q h.pid l (l ++ h' ∷ []) (leido s) f,
                  hilos-programa q h.pid p p' (con_ready h.pid (l ++ h' ∷ []) (leido s)) e,
                  leido-hilos s,
                ),
                λ j r g. insert-blocked h.pid j p p' s.programas r e refl g,
              ))
      ]

  -- The list of those that wait for `tid` in the program `pid` is `l`.
  abbrev Esperan : ℕ → ℕ → List (Hilo E) → Suse E → Type 0
  Esperan pid tid l s =
      (p : Programa E) → lookup pid s.programas ≡ some p → lista_de tid p.blocked ≡ l

  lista_de-insert :
      (k : ℕ) (l : List (Hilo E)) (d : Dict ℕ (List (Hilo E))) → lista_de k (insert k l d) ≡ l
  lista_de-insert k l d = rw (lookup-insert_self k l d, lista_de) refl

  liberar_lista-hilos :
      (pid tid : ℕ) (l : List (Hilo E)) (s : Suse E)
      → Esperan pid tid l s
      → Logra (λ t. hilos q t ≤ hilos q s) (liberar_lista pid tid l s)
  unfolding liberar_lista
  liberar_lista-hilos pid tid [] s w = omega arith
  liberar_lista-hilos pid tid (h ∷ r) s w =
      Logra-desref (λ t. hilos q t ≤ hilos q s) (lookup pid s.programas) _
        λ p e.
          let p0 = record p { blocked = insert tid r p.blocked } in
          let s0 = con_programa pid p0 s in
          let k0 = hilos-programa q pid p p0 s e in
          let k1 = suma-lista_de tid r p.blocked in
          let k2 = ap (en_lista q) (w p e) in
          Logra->>= (Liberado h s0) (λ t. hilos q t ≤ hilos q s) (liberar_hilo h s0) _
            (liberar_hilo-Liberado h s0)
            λ s1 _ k.
              let w1 : Esperan pid tid r s1 = λ p1 f.
                let (o, g, b) = k.1 pid p1 f in
                let y : some p0 ≡ some o = sym (lookup-insert_self pid p0 s.programas) ∙ g in
                let y' : p0 ≡ o = cc in
                ap (lista_de tid) (b ∙ ap (λ (z : Programa E). z.blocked) (sym y'))
                ∙ lista_de-insert tid r p.blocked in
              Logra-weaken (λ t. hilos q t ≤ hilos q s1) _ _ (liberar_lista-hilos pid tid r s1 w1)
                λ t m. ground (arith, k.0, k0, k1, k2, m)

  -- The thread that ended is in Exit and still in execution.
  abbrev Salido : ℕ → Suse E → Suse E → Type 0
  Salido pid s t =
      (p : Programa E) × (h : Hilo E) × (lookup pid t.programas ≡ some p)
      × (p.exec ≡ some h)
      × (hilos q t ≡ hilos q s + en_opcion q (some h))

  pasar_a_exit-Salido : (pid : ℕ) (s : Suse E) → Logra (Salido pid s) (pasar_a_exit pid s)
  unfolding pasar_a_exit hilos
  pasar_a_exit-Salido pid s =
      Logra->>= (λ t. hilos q t ≡ hilos q s) (Salido pid s) (tomar_metricas s) _
        (tomar_metricas-hilos s)
        λ t _ m. Logra-desref (Salido pid s) (lookup pid t.programas) _ λ p e.
          Logra-desref (Salido pid s) p.exec _ λ h x. (
            p,
            h,
            e,
            x,
            ground (
              arith,
              m,
              suma-lista_de h.pid (lista_de h.pid t.exit ++ h ∷ []) t.exit,
              cuantos-append (λ (y : Hilo E). q y.pid y.tid) (lista_de h.pid t.exit) (h ∷ []),
            ),
          )

  sacar_de_exec-hilos :
      (pid : ℕ) (s t : Suse E)
      → Salido pid s t
      → Logra (λ u. hilos q u ≡ hilos q s) (sacar_de_exec pid t)
  unfolding sacar_de_exec
  sacar_de_exec-hilos pid s t (p, h, e, x, k) =
      Logra-desref (λ u. hilos q u ≡ hilos q s) (lookup pid t.programas) _
        λ p' e'.
          let y : some p ≡ some p' = sym e ∙ e' in
          let y' : p ≡ p' = cc in
          omega (
            arith,
            k,
            ap (en_opcion q) (ap (λ (z : Programa E). z.exec) (sym y') ∙ x),
            hilos-programa q pid p' (record p' { exec = none }) t e',
          )

  pub realizar_close-hilos :
      (pid tid : ℕ) (s : Suse E) → Logra (λ t. hilos q t ≤ hilos q s) (realizar_close pid tid s)
  unfolding realizar_close liberar_bloqueados_por_el_hilo
  realizar_close-hilos pid tid s =
      let Q = λ (t : Suse E). hilos q t ≤ hilos q s in
      Logra-desref Q (lookup pid s.programas) _ λ p e. Logra-desref Q p.exec _ λ h x.
        elim (Bool-cases (h.tid == tid)) [
          | inl b ↦ rw b (
              Logra->>= (Salido pid s) Q (pasar_a_exit pid s) _ (pasar_a_exit-Salido pid s)
                λ s1 _ k1.
                  Logra->>= (λ t. hilos q t ≡ hilos q s) Q (sacar_de_exec pid s1) _
                    (sacar_de_exec-hilos pid s s1 k1)
                    λ s2 _ k2. Logra-desref Q (lookup h.pid s2.programas) _ λ p2 e2.
                      let w : Esperan h.pid h.tid (lista_de h.tid p2.blocked) s2 = λ p3 e3.
                        let y : some p3 ≡ some p2 = sym e3 ∙ e2 in
                        let y' : p3 ≡ p2 = cc in
                        ap (λ (z : Programa E). lista_de h.tid z.blocked) y' in
                      Logra-weaken (λ t. hilos q t ≤ hilos q s2) _ _
                        (liberar_lista-hilos h.pid h.tid (lista_de h.tid p2.blocked) s2 w)
                        λ t m. omega (arith, m, k2))
          | inr b ↦ rw b (omega arith)
        ]
