-- ===== src/Suse/Steps/Values.antt =====
-- The semaphores over the steps of the server (SUSE.c).
use linuse_tp_os.Base.{
  ℕ, suc, ◌≡◌, refl, inl, none, some, List, [], ◌∷◌, ◌++◌, clave_nombre, clave_numero, pos, ◌≤ℤ◌,
  Logra-ok, Garantiza, length, All, Dict, lookup,
}
use linuse_tp_os.Suse.Model.{Reales, Hilo, Semaforo, Suse}
use linuse_tp_os.Suse.Semaphore.Waiters.{
  Medido, MedidosEn, Medidos, Intactos-Medidos, Medidos-insert, sem_suse_wait-Medidos,
  sem_suse_signal-Medidos,
}
use linuse_tp_os.Suse.Invariant.Untouched.{
  Intactos, crear_hilo-Intactos, tomar_nuevo-Intactos, admitir-Intactos,
  siguiente_a_ejecutar-Intactos, despertar-Intactos, realizar_join-Intactos,
  tomar_metricas-Intactos, realizar_close-Intactos,
}
use linuse_tp_os.Suse.Invariant.Choice.{estado_de}
use linuse_tp_os.Suse.Program.{
  SemConfig, semaforos_de, colas_de, iniciar_suse, crear_programa, desconectar,
}
use linuse_tp_os.Suse.Semaphore.Wakeup.{Registrado, Despierta, avisos, avisos-Despierta}
use linuse_tp_os.Suse.Schedule.{Ordenar}
use linuse_tp_os.Suse.Steps.{
  Paso, conecta, desconecta, crea, toma, admite, elige, despierta, espera_sem, avisa_sem,
  espera_hilo, cierra, mide, Alcanza, aqui, sigue,
}

-- A semaphore of the configuration starts between 0 and its maximum.
abbrev pub IsValido : SemConfig → Type 0
IsValido c = (pos 0 ≤ℤ c.inicial) × (c.inicial ≤ℤ c.maximo)

module _ {E : Type 0} where
  semaforos_de-MedidosEn :
      (cs : List SemConfig) (d : Dict (List ℕ) Semaforo) (colas : Dict (List ℕ) (List (Hilo E)))
      → All IsValido cs
      → MedidosEn (d, colas)
      → MedidosEn (semaforos_de cs d, colas_de cs colas)
  unfolding semaforos_de colas_de
  semaforos_de-MedidosEn [] d colas v c = c
  semaforos_de-MedidosEn (k ∷ cs) d colas v c = semaforos_de-MedidosEn cs _ _ v.1 (
      Medidos-insert d colas k.id (record { valor_actual = k.inicial; valor_maximo = k.maximo }) []
        c (v.0.0, v.0.1, inl refl))

  iniciar_suse-Medidos :
      (cs : List SemConfig) (grado : ℕ) (reloj : ℕ → ℕ)
      → All IsValido cs
      → Medidos {E = E} (iniciar_suse cs grado reloj)
  unfolding iniciar_suse
  iniciar_suse-Medidos cs grado reloj v = semaforos_de-MedidosEn cs [] [] v λ id x e. vacio id x e
    where
      vacio :
          (id : List ℕ) (x : Semaforo)
          → lookup id [] ≡ some x
          → (q : List (Hilo E)) × (lookup id [] ≡ some q) × Medido x q
      vacio id x e = let y : none ≡ some x = unfold lookup in e in cc

module _ {E : Type 0} (R : Reales E) (ordenar : Ordenar E) where
  Paso-Medidos : {s t : Suse E} → Paso R ordenar s t → Medidos s → Medidos t
  Paso-Medidos {s} (conecta pid e) c = unfold crear_programa in c
  Paso-Medidos {s} (desconecta pid) c = unfold desconectar in c
  Paso-Medidos {s} {t} (crea pid tid e) c =
      Intactos-Medidos s t (Logra-ok (Intactos s) _ _ (crear_hilo-Intactos R pid tid s) e) c
  Paso-Medidos {s} {t} (toma m e) c =
      Intactos-Medidos s t (Logra-ok (Intactos s) _ _ (tomar_nuevo-Intactos s) e) c
  Paso-Medidos {s} {t} (admite e) c =
      Intactos-Medidos s t (Logra-ok (Intactos s) _ _ (admitir-Intactos s) e) c
  Paso-Medidos {s} {t} (elige pid w e) c =
      Intactos-Medidos s t
        (Logra-ok (λ r. Intactos s (estado_de r)) _ _
          (siguiente_a_ejecutar-Intactos R ordenar pid s) e)
        c
  Paso-Medidos {s} {t} (despierta pid e) c =
      Intactos-Medidos s t (Logra-ok (λ r. Intactos s r.0) _ _ (despertar-Intactos pid s) e) c
  Paso-Medidos {s} (espera_sem pid tid id e) c =
      Logra-ok Medidos _ _ (sem_suse_wait-Medidos pid tid id s c) e
  Paso-Medidos {s} (avisa_sem pid id e) c =
      Logra-ok Medidos _ _ (sem_suse_signal-Medidos pid id s c) e
  Paso-Medidos {s} {t} (espera_hilo pid tid) c =
      Intactos-Medidos s t (realizar_join-Intactos pid tid s) c
  Paso-Medidos {s} {t} (cierra pid tid e) c =
      Intactos-Medidos s t (Logra-ok (Intactos s) _ _ (realizar_close-Intactos pid tid s) e) c
  Paso-Medidos {s} {t} (mide e) c =
      Intactos-Medidos s t (Logra-ok (Intactos s) _ _ (tomar_metricas-Intactos s) e) c

  Alcanza-Medidos : {s t : Suse E} → Medidos s → Alcanza R ordenar s t → Medidos t
  Alcanza-Medidos c aqui = c
  Alcanza-Medidos c (sigue a p) = Paso-Medidos p (Alcanza-Medidos c a)

  -- In every state that the server reaches from its start, by any order of requests, admissions, metrics
  -- and wake-ups, where each semaphore of the configuration starts between 0 and its maximum: each
  -- semaphore has a queue, its value is between 0 and its maximum, and no thread waits in the queue
  -- unless the value is 0.
  pub reachable-Medidos :
      (cs : List SemConfig) (grado : ℕ) (reloj : ℕ → ℕ) {t : Suse E}
      → All IsValido cs
      → Alcanza R ordenar (iniciar_suse cs grado reloj) t
      → Medidos t
  reachable-Medidos cs grado reloj v a = Alcanza-Medidos (iniciar_suse-Medidos cs grado reloj v) a

  -- In a state that the server reaches from its start, where each semaphore of the configuration starts
  -- between 0 and its maximum, let `h` be a thread that waits for a semaphore whose maximum is 1 or more,
  -- behind the threads `antes`. As many signals as there are threads in `antes`, and one more, all return
  -- and make `h` the last in Ready of its program, which is not blocked then. The programs that signal and
  -- those of the threads in `antes` and of `h` are there, with their Ready lists.
  pub reachable-Despierta :
      (cs : List SemConfig) (grado : ℕ) (reloj : ℕ → ℕ) {s : Suse E}
      → All IsValido cs
      → Alcanza R ordenar (iniciar_suse cs grado reloj) s
      → (pids : List ℕ) (id : List ℕ) (h : Hilo E) (antes resto : List (Hilo E)) (x : Semaforo)
      → lookup id s.semaforos ≡ some x
      → pos 1 ≤ℤ x.valor_maximo
      → lookup id s.blocked_por_semaforo ≡ some (antes ++ h ∷ resto)
      → length pids ≡ suc (length antes)
      → All (λ (k : Hilo E). Registrado k.pid s) antes
      → Registrado h.pid s
      → All (λ k. Registrado k s) pids
      → Garantiza (Despierta h) (avisos pids id s)
  reachable-Despierta cs grado reloj {s} v a pids id h antes resto x e g f n b c d =
      avisos-Despierta pids id h antes resto x s (reachable-Medidos cs grado reloj v a) e g f n b c
        d
