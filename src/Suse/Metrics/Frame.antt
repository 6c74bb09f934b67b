-- ===== src/Suse/Metrics/Frame.antt =====
-- What `tomarMetricas` leaves as it was (SUSE.c): all but measured times, totals and clock readings.
use mathlib.Core.Option
use mathlib.Core.Path.{ap₂}
use linuse_tp_os.Base.{
  ℕ, ◌≡◌, refl, sym, ap, ◌∙◌, Option, none, some, List, [], ◌∷◌, map, clave_nombre, clave_numero,
  Resultado, ok, fallo, ◌>>=◌, Logra, Logra->>=, Logra-desref, Dict, lookup, map_values,
  lookup-map_values, map_values-insert_same,
}
use linuse_tp_os.Suse.Model.{Hilo, Programa, Suse, leido, con_programa}
use linuse_tp_os.Suse.Metrics.{
  medir_hilo, medir_lista, medir_listas, medir_news, medir_ready, medir_blocked_de, medir_exec,
  medir_exec_de, por_cada, reiniciar_de, tomar_metricas,
}

module _ {E : Type 0} where
  abbrev pub sin_tiempo : Hilo E → Hilo E
  sin_tiempo h = record h { tiempo_de_ejecucion = 0 }

  abbrev pub sin_tiempos : Programa E → Programa E
  sin_tiempos p = record p {
    exec = Option.map sin_tiempo p.exec;
    blocked = map_values (map sin_tiempo) p.blocked;
    tiempo_de_ejecucion_de_todos_los_hilos = 0;
  }

  -- The state without what the metrics measure.
  abbrev pub esqueleto : Suse E → Suse E
  esqueleto s = record s {
    ready = map_values (map sin_tiempo) s.ready;
    programas = map_values sin_tiempos s.programas;
    new = map sin_tiempo s.new;
    lecturas = 0;
  }

  con_programa-esqueleto :
      (pid : ℕ) (p q : Programa E) (s : Suse E)
      → lookup pid s.programas ≡ some p
      → sin_tiempos q ≡ sin_tiempos p
      → esqueleto (con_programa pid q s) ≡ esqueleto s
  con_programa-esqueleto pid p q s e f =
      ap (λ d. record (esqueleto s) { programas = d })
        (map_values-insert_same sin_tiempos pid p q s.programas e f)

  -- Two states with one skeleton have programs of one skeleton.
  programa-esqueleto :
      (pid : ℕ) (p q : Programa E) (s t : Suse E)
      → esqueleto t ≡ esqueleto s
      → lookup pid s.programas ≡ some p
      → lookup pid t.programas ≡ some q
      → sin_tiempos q ≡ sin_tiempos p
  programa-esqueleto pid p q s t e f g =
      let a : some (sin_tiempos q) ≡ lookup pid (map_values sin_tiempos t.programas) =
        rw (lookup-map_values sin_tiempos pid t.programas, g) refl in
      let b : some (sin_tiempos p) ≡ lookup pid (map_values sin_tiempos s.programas) =
        rw (lookup-map_values sin_tiempos pid s.programas, f) refl in
      cc (a ∙ ap (λ (u : Suse E). lookup pid u.programas) e ∙ sym b)

  medir_hilo-esqueleto :
      (h : Hilo E) (s : Suse E)
      → Logra
          (λ r. (sin_tiempo r.0 ≡ sin_tiempo h) × (esqueleto r.1 ≡ esqueleto s))
          (medir_hilo h s)
  unfolding medir_hilo
  medir_hilo-esqueleto h s =
      Logra-desref (λ r. (sin_tiempo r.0 ≡ sin_tiempo h) × (esqueleto r.1 ≡ esqueleto s))
        (lookup h.pid s.programas) _
        λ p e. (refl, con_programa-esqueleto h.pid p _ (leido s) e refl)

  medir_lista-esqueleto :
      (l : List (Hilo E)) (s : Suse E)
      → Logra
          (λ r. (map sin_tiempo r.0 ≡ map sin_tiempo l) × (esqueleto r.1 ≡ esqueleto s))
          (medir_lista l s)
  unfolding medir_lista
  medir_lista-esqueleto [] s = (refl, refl)
  medir_lista-esqueleto (h ∷ r) s =
      Logra->>= (λ m. (sin_tiempo m.0 ≡ sin_tiempo h) × (esqueleto m.1 ≡ esqueleto s)) _
        (medir_hilo h s) _ (medir_hilo-esqueleto h s)
        λ (h', s1) _ m.
          Logra->>= (λ n. (map sin_tiempo n.0 ≡ map sin_tiempo r) × (esqueleto n.1 ≡ esqueleto s1))
            _ (medir_lista r s1) _ (medir_lista-esqueleto r s1)
            λ (r', s2) _ n. (ap₂ ◌∷◌ m.0 n.0, n.1 ∙ m.1)

  medir_listas-esqueleto :
      (d : Dict ℕ (List (Hilo E))) (s : Suse E)
      → Logra
          (λ r.
            (map_values (map sin_tiempo) r.0 ≡ map_values (map sin_tiempo) d)
            × (esqueleto r.1 ≡ esqueleto s))
          (medir_listas d s)
  unfolding medir_listas map_values
  medir_listas-esqueleto [] s = (refl, refl)
  medir_listas-esqueleto ((k, l) ∷ d) s =
      Logra->>= (λ m. (map sin_tiempo m.0 ≡ map sin_tiempo l) × (esqueleto m.1 ≡ esqueleto s)) _
        (medir_lista l s) _ (medir_lista-esqueleto l s)
        λ (l', s1) _ m.
          Logra->>=
            (λ n.
              (map_values (map sin_tiempo) n.0 ≡ map_values (map sin_tiempo) d)
              × (esqueleto n.1 ≡ esqueleto s1))
            _ (medir_listas d s1) _ (medir_listas-esqueleto d s1)
            λ (d', s2) _ n. (ap₂ (λ x y. (k, x) ∷ y) m.0 n.0, n.1 ∙ m.1)

  -- The operation keeps the skeleton of the state that it starts from.
  abbrev pub Conserva : Suse E → Resultado (Suse E) → Type 0
  Conserva s = Logra (λ t. esqueleto t ≡ esqueleto s)

  Conserva-trans :
      (s t : Suse E)
      → esqueleto t ≡ esqueleto s
      → (m : Resultado (Suse E)) → Conserva t m
      → Conserva s m
  Conserva-trans s t e (ok u) c = c ∙ e
  Conserva-trans s t e (fallo x) c = tt

  medir_news-esqueleto : (s : Suse E) → Conserva s (medir_news s)
  unfolding medir_news
  medir_news-esqueleto s =
      Logra->>= (λ m. (map sin_tiempo m.0 ≡ map sin_tiempo s.new) × (esqueleto m.1 ≡ esqueleto s)) _
        (medir_lista s.new s) _ (medir_lista-esqueleto s.new s)
        λ (l, t) _ m. ap₂ (λ (u : Suse E) x. record u { new = x }) m.1 m.0

  medir_ready-esqueleto : (s : Suse E) → Conserva s (medir_ready s)
  unfolding medir_ready
  medir_ready-esqueleto s =
      Logra->>=
        (λ m.
          (map_values (map sin_tiempo) m.0 ≡ map_values (map sin_tiempo) s.ready)
          × (esqueleto m.1 ≡ esqueleto s))
        _ (medir_listas s.ready s) _ (medir_listas-esqueleto s.ready s)
        λ (d, t) _ m. ap₂ (λ (u : Suse E) x. record u { ready = x }) m.1 m.0

  medir_blocked_de-esqueleto : (pid : ℕ) (s : Suse E) → Conserva s (medir_blocked_de pid s)
  unfolding medir_blocked_de
  medir_blocked_de-esqueleto pid s =
      Logra-desref (λ t. esqueleto t ≡ esqueleto s) (lookup pid s.programas) _
        λ p e.
          Logra->>=
            (λ m.
              (map_values (map sin_tiempo) m.0 ≡ map_values (map sin_tiempo) p.blocked)
              × (esqueleto m.1 ≡ esqueleto s))
            _ (medir_listas p.blocked s) _ (medir_listas-esqueleto p.blocked s)
            λ (d, t) _ m.
              Logra-desref (λ u. esqueleto u ≡ esqueleto s) (lookup pid t.programas) _
                λ q f.
                  let k = programa-esqueleto pid p q s t m.1 e f in
                  con_programa-esqueleto pid q (record q { blocked = d }) t f
                    (ap (λ x. record (sin_tiempos q) { blocked = x })
                      (m.0 ∙ sym (ap (λ (x : Programa E). x.blocked) k)))
                  ∙ m.1

  medir_exec-esqueleto :
      (pid : ℕ) (o : Option (Hilo E)) (p : Programa E) (s : Suse E)
      → lookup pid s.programas ≡ some p
      → p.exec ≡ o
      → Conserva s (medir_exec pid o s)
  unfolding medir_exec
  medir_exec-esqueleto pid none p s e x = refl
  medir_exec-esqueleto pid (some h) p s e x =
      Logra->>= (λ m. (sin_tiempo m.0 ≡ sin_tiempo h) × (esqueleto m.1 ≡ esqueleto s)) _
        (medir_hilo h s) _ (medir_hilo-esqueleto h s)
        λ (h', t) _ m.
          Logra-desref (λ u. esqueleto u ≡ esqueleto s) (lookup pid t.programas) _
            λ q f.
              let k = programa-esqueleto pid p q s t m.1 e f in
              con_programa-esqueleto pid q (record q { exec = some h' }) t f
                (ap (λ y. record (sin_tiempos q) { exec = y })
                  (ap some m.0
                    ∙ sym (ap (Option.map sin_tiempo) x)
                    ∙ sym (ap (λ (y : Programa E). y.exec) k)))
              ∙ m.1

  medir_exec_de-esqueleto : (pid : ℕ) (s : Suse E) → Conserva s (medir_exec_de pid s)
  unfolding medir_exec_de
  medir_exec_de-esqueleto pid s =
      Logra-desref (λ t. esqueleto t ≡ esqueleto s) (lookup pid s.programas) _
        λ p e. medir_exec-esqueleto pid p.exec p s e refl

  reiniciar_de-esqueleto : (pid : ℕ) (s : Suse E) → Conserva s (reiniciar_de pid s)
  unfolding reiniciar_de
  reiniciar_de-esqueleto pid s =
      Logra-desref (λ t. esqueleto t ≡ esqueleto s) (lookup pid s.programas) _
        λ p e. con_programa-esqueleto pid p _ s e refl

  por_cada-esqueleto {ℓ κ} :
      {K : Type ℓ} {V : Type κ} (d : Dict K V) (f : K → Suse E → Resultado (Suse E)) (s : Suse E)
      → ((k : K) (t : Suse E) → Conserva t (f k t))
      → Conserva s (por_cada d f s)
  unfolding por_cada
  por_cada-esqueleto [] f s c = refl
  por_cada-esqueleto ((k, v) ∷ d) f s c =
      Logra->>= (λ t. esqueleto t ≡ esqueleto s) _ (f k s) _ (c k s)
        λ t _ m. Conserva-trans s t m (por_cada d f t) (por_cada-esqueleto d f t c)

  -- A pass after another.
  luego :
      (s : Suse E) (m : Resultado (Suse E)) (f : Suse E → Resultado (Suse E))
      → Conserva s m
      → ((t : Suse E) → Conserva t (f t))
      → Conserva s (m >>= f)
  luego s m f c k =
      Logra->>= (λ t. esqueleto t ≡ esqueleto s) _ m f c λ t _ e. Conserva-trans s t e (f t) (k t)

  -- Where `tomarMetricas` ends, the state is as it was but for the execution times of the threads in
  -- New, in Ready, in execution and waiting for others, the totals of the programs, and the number of
  -- clock readings: no thread moves, and the order of every list and queue is kept.
  pub tomar_metricas-Conserva : (s : Suse E) → Conserva s (tomar_metricas s)
  unfolding tomar_metricas
  tomar_metricas-Conserva s = luego s (medir_news s) _ (medir_news-esqueleto s) λ s1.
      luego s1 _ _ (por_cada-esqueleto s1.programas _ s1 medir_blocked_de-esqueleto) λ s2.
        luego s2 _ _ (por_cada-esqueleto s2.ready _ s2 (λ _. medir_ready-esqueleto)) λ s3.
          luego s3 _ _ (por_cada-esqueleto s3.programas _ s3 medir_exec_de-esqueleto) λ s4.
            luego s4 _ _
              (por_cada-esqueleto s4.blocked_por_semaforo _ s4 (λ _. medir_news-esqueleto))
              λ s5. por_cada-esqueleto s5.programas _ s5 reiniciar_de-esqueleto
