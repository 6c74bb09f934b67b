-- ===== src/Suse/Count.antt =====
-- How many threads the server holds, wherever they are: New, the planner's hand, Ready, Execute, the
-- lists of joiners, the queues of the semaphores, Exit (SUSE.c).
pub mod Moves
pub mod Choice
pub mod Waiting
pub mod Closing
use mathlib.Core.Option
use mathlib.Core.Path.{ap₂}
use linuse_tp_os.Base.{
  ℕ, ◌+◌, ◌≡◌, refl, ap, Bool, Option, none, some, List, [], ◌∷◌, map, arith, if◌then◌else◌,
  clave_nombre, clave_numero, Resultado, Logra, cuantos, lookup, valor, suma, suma-insert,
  suma-map_values,
}
use linuse_tp_os.Suse.Model.{Hilo, Programa, Suse, con_programa, con_ready}
use linuse_tp_os.Suse.Metrics.Frame.{sin_tiempo, sin_tiempos, esqueleto}
use linuse_tp_os.Suse.Semaphore.{con_cola}

-- The threads counted are those whose program and number pass the test `q`.
module _ {E : Type 0} (q : ℕ → ℕ → Bool) where
  abbrev pub en_lista : List (Hilo E) → ℕ
  en_lista = cuantos (λ h. q h.pid h.tid)

  abbrev pub en_opcion : Option (Hilo E) → ℕ
  en_opcion none = 0
  en_opcion (some h) = if q h.pid h.tid then 1 else 0

  abbrev pub en_programa : Programa E → ℕ
  en_programa p = en_opcion p.exec + suma en_lista p.blocked

  unfoldable pub hilos : Suse E → ℕ
  hilos s =
      en_lista s.new
      + en_opcion s.en_mano
      + suma en_lista s.ready
      + suma en_lista s.blocked_por_semaforo
      + suma en_lista s.exit
      + suma en_programa s.programas

  abbrev pub Mantiene : Suse E → Resultado (Suse E) → Type 0
  Mantiene s = Logra (λ t. hilos t ≡ hilos s)

  -- The skeleton of a state has the same threads.
  en_lista-esqueleto : (l : List (Hilo E)) → en_lista (map sin_tiempo l) ≡ en_lista l
  en_lista-esqueleto [] = refl
  en_lista-esqueleto (h ∷ r) = ground (arith, en_lista-esqueleto r)

  en_opcion-esqueleto : (o : Option (Hilo E)) → en_opcion (Option.map sin_tiempo o) ≡ en_opcion o
  en_opcion-esqueleto none = refl
  en_opcion-esqueleto (some h) = refl

  en_programa-esqueleto : (p : Programa E) → en_programa (sin_tiempos p) ≡ en_programa p
  en_programa-esqueleto p =
      ap₂ ◌+◌ (en_opcion-esqueleto p.exec)
        (suma-map_values en_lista en_lista (map sin_tiempo) p.blocked en_lista-esqueleto)

  pub hilos-esqueleto : (s : Suse E) → hilos (esqueleto s) ≡ hilos s
  unfolding hilos
  hilos-esqueleto s = omega (
    arith,
    en_lista-esqueleto s.new,
    suma-map_values en_lista en_lista (map sin_tiempo) s.ready en_lista-esqueleto,
    suma-map_values en_programa en_programa sin_tiempos s.programas en_programa-esqueleto,
  )

  -- One program is written, or one list of Ready.
  pub hilos-programa :
      (pid : ℕ) (p p' : Programa E) (s : Suse E)
      → lookup pid s.programas ≡ some p
      → hilos (con_programa pid p' s) + en_programa p ≡ hilos s + en_programa p'
  unfolding hilos
  hilos-programa pid p p' s e =
      omega (arith, suma-insert en_programa pid p' s.programas, ap (valor en_programa) e)

  pub hilos-programa_nuevo :
      (pid : ℕ) (p' : Programa E) (s : Suse E)
      → lookup pid s.programas ≡ none
      → hilos (con_programa pid p' s) ≡ hilos s + en_programa p'
  unfolding hilos
  hilos-programa_nuevo pid p' s e =
      omega (arith, suma-insert en_programa pid p' s.programas, ap (valor en_programa) e)

  pub hilos-ready :
      (pid : ℕ) (l l' : List (Hilo E)) (s : Suse E)
      → lookup pid s.ready ≡ some l
      → hilos (con_ready pid l' s) + en_lista l ≡ hilos s + en_lista l'
  unfolding hilos
  hilos-ready pid l l' s e =
      omega (arith, suma-insert en_lista pid l' s.ready, ap (valor en_lista) e)

  pub hilos-ready_nueva :
      (pid : ℕ) (s : Suse E) → lookup pid s.ready ≡ none → hilos (con_ready pid [] s) ≡ hilos s
  unfolding hilos
  hilos-ready_nueva pid s e =
      omega (arith, suma-insert en_lista pid [] s.ready, ap (valor en_lista) e)

  pub hilos-cola :
      (id : List ℕ) (l l' : List (Hilo E)) (s : Suse E)
      → lookup id s.blocked_por_semaforo ≡ some l
      → hilos (con_cola id l' s) + en_lista l ≡ hilos s + en_lista l'
  unfolding hilos
  hilos-cola id l l' s e =
      omega (arith, suma-insert en_lista id l' s.blocked_por_semaforo, ap (valor en_lista) e)
