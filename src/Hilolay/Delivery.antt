-- ===== src/Hilolay/Delivery.antt =====
-- The planner takes from the socket what the library put into it.
use linuse_tp_os.Base.{
  ℕ, ◌+◌, ◌-◌, ◌^◌, ◌<◌, ◌≡◌, refl, inl, inr, false, Option, none, some, List, [], ◌∷◌, ◌++◌, arith,
  ◌==◌, espera, Resultado, ok, fallo, ◌>>=◌, Resultado-cases, Logra, Logra-ok, length, All,
  length-append,
}
use linuse_tp_os.Wire.{int_de, leer, leer_int}
use linuse_tp_os.Wire.Bytes.{leer-append_igual, leer_int-int_de}
use linuse_tp_os.Hilolay.Requests.{semaforo_de, enviado, enviar, hiloops}
use linuse_tp_os.Suse.Ready.{crear_hilo}
use linuse_tp_os.Suse.Thread.{realizar_join, realizar_close}
use linuse_tp_os.Suse.Semaphore.{sem_suse_signal, sem_suse_wait}
use linuse_tp_os.Suse.Model.{Reales, Suse}
use linuse_tp_os.Suse.Schedule.{Eleccion, elegido, bloqueado, Ordenar, siguiente_a_ejecutar}
use linuse_tp_os.Suse.Requests.{
  Peticion, suse_create, suse_schedule_next, suse_wait, suse_signal, suse_join, suse_close,
  desconocida, respuesta, atender,
}
use linuse_tp_os.Suse.Decoding.{
  cadena, leer_semaforo, leer_argumentos, leer_peticion, salida_de, turno,
}
use linuse_tp_os.Hilolay.{HilolayOperations}
use mathlib.Core.List.{append-nil, append_assoc}

-- The numbers fit into an `int`, and the name, without zeros, into a length.
abbrev pub IsNombre : List ℕ → Type 0
IsNombre id = All (λ b. (b == 0) ≡ false) id × (length id < 2 ^ 31 - 1)

abbrev pub IsPedido : Peticion → Type 0
IsPedido (suse_create tid) = tid < 2 ^ 31
IsPedido suse_schedule_next = Unit
IsPedido (suse_wait tid id) = (tid < 2 ^ 31) × IsNombre id
IsPedido (suse_signal tid id) = (tid < 2 ^ 31) × IsNombre id
IsPedido (suse_join tid) = tid < 2 ^ 31
IsPedido (suse_close tid) = tid < 2 ^ 31
IsPedido (desconocida n) = ⊥

cadena-append : (id : List ℕ) → All (λ b. (b == 0) ≡ false) id → cadena (id ++ (0 ∷ [])) ≡ ok id
unfolding cadena
cadena-append [] h = refl
cadena-append (b ∷ bs) h = rw (cadena-append bs h.1, h.0)

leer_semaforo-semaforo_de :
    (tid : ℕ) (id r : List ℕ)
    → tid < 2 ^ 31
    → IsNombre id
    → leer_semaforo (semaforo_de tid id ++ r) ≡ ok ((tid, id), r)
unfolding leer_semaforo semaforo_de
leer_semaforo-semaforo_de tid id r h n =
    rw
      (
        append_assoc (int_de tid) (int_de (length id) ++ (id ++ (0 ∷ []))) r,
        append_assoc (int_de (length id)) (id ++ (0 ∷ [])) r,
        leer_int-int_de tid (int_de (length id) ++ ((id ++ (0 ∷ [])) ++ r)) (omega arith),
        leer_int-int_de (length id) ((id ++ (0 ∷ [])) ++ r) (omega (arith, n.1)),
      )
      (ground (
        arith,
        n.1,
        leer-append_igual (length id + 1) (id ++ (0 ∷ [])) r (length-append id (0 ∷ [])),
        cadena-append id n.0,
      ))

-- What the library sends for a request is the request that the planner takes.
pub leer_peticion-enviado :
    (p : Peticion) (r : List ℕ) → IsPedido p → leer_peticion (enviado p ++ r) ≡ ok (p, r)
unfolding leer_peticion leer_argumentos enviado
leer_peticion-enviado (suse_create tid) r h = rw (
  append_assoc (int_de 1) (int_de tid) r,
  leer_int-int_de 1 (int_de tid ++ r) (omega arith),
  leer_int-int_de tid r (omega arith),
)
leer_peticion-enviado suse_schedule_next r h = rw (leer_int-int_de 2 r (omega arith))
leer_peticion-enviado (suse_wait tid id) r h = rw (
  append_assoc (int_de 3) (semaforo_de tid id) r,
  leer_int-int_de 3 (semaforo_de tid id ++ r) (omega arith),
  leer_semaforo-semaforo_de tid id r h.0 h.1,
)
leer_peticion-enviado (suse_signal tid id) r h = rw (
  append_assoc (int_de 4) (semaforo_de tid id) r,
  leer_int-int_de 4 (semaforo_de tid id ++ r) (omega arith),
  leer_semaforo-semaforo_de tid id r h.0 h.1,
)
leer_peticion-enviado (suse_join tid) r h = rw (
  append_assoc (int_de 5) (int_de tid) r,
  leer_int-int_de 5 (int_de tid ++ r) (omega arith),
  leer_int-int_de tid r (omega arith),
)
leer_peticion-enviado (suse_close tid) r h = rw (
  append_assoc (int_de 6) (int_de tid) r,
  leer_int-int_de 6 (int_de tid ++ r) (omega arith),
  leer_int-int_de tid r (omega arith),
)
leer_peticion-enviado (desconocida n) r h = absurd h

module _ {E : Type 0} (R : Reales E) (ordenar : Ordenar E) (sd : ℕ) where
  turno-leer :
      (e r : List ℕ) (p : Peticion) (s : Suse E)
      → leer_peticion e ≡ ok (p, r)
      → turno R ordenar sd e s
        ≡ (atender R ordenar sd p s >>= λ (t, tid). ok (t, (salida_de tid, r)))
  unfolding turno leer_int leer
  turno-leer [] r p s h =
      let nada : Resultado (Peticion × List ℕ) = fallo espera in let x : nada ≡ ok (p, r) = h in cc
  turno-leer (b ∷ bs) r p s h = rw h

  abbrev con_salida : Resultado (Suse E × Option ℕ) → Resultado (Suse E × List ℕ)
  con_salida m = do (t, tid) ← m; ok (t, salida_de tid)

  enviar-atender :
      (p : Peticion) (s : Suse E)
      → IsPedido p
      → enviar R ordenar sd p s ≡ con_salida (atender R ordenar sd p s)
  unfolding enviar
  enviar-atender p s h =
      let e : leer_peticion (enviado p) ≡ ok (p, []) =
        rw append-nil at (leer_peticion-enviado p [] h) in
      rw (turno-leer (enviado p) [] p s e) (elim (Resultado-cases (atender R ordenar sd p s)) [
        | inl (a, e') ↦ rw e'
        | inr (x, e') ↦ rw e'
      ])

  -- The operations of the planner, without the socket. A program that is given no thread waits.
  pub directas : HilolayOperations (Suse E)
  directas = record {
    suse_create = λ tid s. crear_hilo R sd tid s;
    suse_schedule_next = λ s. (do
      e ← siguiente_a_ejecutar R ordenar sd s
      elim e [ elegido tid t ↦ ok (t, tid) | bloqueado t ↦ fallo espera ]);
    suse_join = λ tid s. ok (realizar_join sd tid s);
    suse_close = λ tid s. realizar_close sd tid s;
    suse_wait = λ tid sem_id s. sem_suse_wait sd tid sem_id s;
    suse_signal = λ tid sem_id s. sem_suse_signal sd sem_id s;
  }

  -- The thread that is chosen goes back in an `int`.
  abbrev pub Cabe : Eleccion E → Type 0
  Cabe (elegido tid t) = tid < 2 ^ 31
  Cabe (bloqueado t) = Unit

  -- The operation of a request, with the thread that it answers.
  abbrev pub pedir : HilolayOperations (Suse E) → Peticion → Suse E → Resultado (Suse E × Option ℕ)
  pedir f (suse_create tid) s = do t ← f.suse_create tid s; ok (t, none)
  pedir f suse_schedule_next s = do (t, tid) ← f.suse_schedule_next s; ok (t, some tid)
  pedir f (suse_wait tid id) s = do t ← f.suse_wait tid id s; ok (t, none)
  pedir f (suse_signal tid id) s = do t ← f.suse_signal tid id s; ok (t, none)
  pedir f (suse_join tid) s = do t ← f.suse_join tid s; ok (t, none)
  pedir f (suse_close tid) s = do t ← f.suse_close tid s; ok (t, none)
  pedir f (desconocida n) s = ok (s, none)

  -- Over the socket the operations of the library are those of the planner, where the numbers fit into
  -- an `int`, that of the thread it chooses too, and a name has no zero.
  pub hiloops-directas :
      (p : Peticion) (s : Suse E)
      → IsPedido p
      → Logra Cabe (siguiente_a_ejecutar R ordenar sd s)
      → pedir (hiloops R ordenar sd) p s ≡ pedir directas p s
  unfolding hiloops directas atender respuesta salida_de leer_int leer
  hiloops-directas (suse_create tid) s h k =
      rw (enviar-atender (suse_create tid) s h)
        (elim (Resultado-cases (crear_hilo R sd tid s)) [ inl (a, e) ↦ rw e | inr (x, e) ↦ rw e ])
  hiloops-directas suse_schedule_next s h k =
      rw (enviar-atender suse_schedule_next s tt)
        (elim (Resultado-cases (siguiente_a_ejecutar R ordenar sd s)) [
          | inl (elegido tid t, e) ↦
              let vuelta = leer_int-int_de tid [] (omega (arith, Logra-ok Cabe _ _ k e)) in
              rw (e, rw append-nil at vuelta)
          | inl (bloqueado t, e) ↦ rw e
          | inr (x, e) ↦ rw e
        ])
  hiloops-directas (suse_wait tid id) s h k =
      rw (enviar-atender (suse_wait tid id) s h)
        (elim (Resultado-cases (sem_suse_wait sd tid id s)) [
          | inl (a, e) ↦ rw e
          | inr (x, e) ↦ rw e
        ])
  hiloops-directas (suse_signal tid id) s h k =
      rw (enviar-atender (suse_signal tid id) s h)
        (elim (Resultado-cases (sem_suse_signal sd id s)) [ inl (a, e) ↦ rw e | inr (x, e) ↦ rw e ])
  hiloops-directas (suse_join tid) s h k = rw (enviar-atender (suse_join tid) s h)
  hiloops-directas (suse_close tid) s h k =
      rw (enviar-atender (suse_close tid) s h)
        (elim (Resultado-cases (realizar_close sd tid s)) [ inl (a, e) ↦ rw e | inr (x, e) ↦ rw e ])
  hiloops-directas (desconocida n) s h k = absurd h
