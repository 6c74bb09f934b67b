-- ===== src/Hilolay.antt =====
-- The client library of SUSE, in user level threads: the table of control blocks and the operations
-- of Planificador/Hilolay/hilolay/hilolay_internal.c. What a program does on them ends in the operations of
-- `struct hilolay_operations` (hilolay_alumnos.h), which are the interface to the planner.
pub mod Requests
pub mod Delivery
pub mod Table
pub mod Calls
pub mod Tests
use linuse_tp_os.Base.{
  ℕ, zero, suc, Bool, true, false, Option, none, some, List, [], ◌∷◌, ◌==◌, if◌then◌else◌, ℤ, pos,
  negsuc, Resultado, ok, ◌>>=◌, desref, en_arreglo, get_elem?, set,
}

pub data State : Type 0 where
  free running ready : State

-- The context and the stack of a thread, and `next`, are left out.
pub record Tcb : Type 0 where
  pub id : ℕ
  pub state : State

-- `ults`, `current_ult`, as an index, and NEXT_ID.
pub record Hilolay : Type 0 where
  pub ults : List Tcb
  pub current_ult : ℕ
  pub next_id : ℕ

-- MAX_ULTS and MAIN_THREAD_ID.
abbrev pub max_ults : ℕ
max_ults = 5000

abbrev pub main_thread_id : ℕ
main_thread_id = 0

-- The operations that a planner offers to the library. `S` is all the state that is not the library's.
pub record HilolayOperations (S : Type 0) : Type 0 where
  pub suse_create : ℕ → S → Resultado S
  pub suse_schedule_next : S → Resultado (S × ℕ)
  pub suse_join : ℕ → S → Resultado S
  pub suse_close : ℕ → S → Resultado S
  pub suse_wait : ℕ → List ℕ → S → Resultado S
  pub suse_signal : ℕ → List ℕ → S → Resultado S

abbrev pub es_libre : State → Bool
es_libre free = true
es_libre running = false
es_libre ready = false

-- The index of the first control block that passes a test, from `i` on.
unfoldable pub buscar_tcb : (Tcb → Bool) → ℕ → List Tcb → Option ℕ
buscar_tcb q i [] = none
buscar_tcb q i (t ∷ ts) = if q t then some i else buscar_tcb q (suc i) ts

unfoldable pub find_free_tcb : Hilolay → Option ℕ
unfolding buscar_tcb
find_free_tcb h = buscar_tcb (λ t. es_libre t.state) 0 h.ults

-- `ults` before anything is written to it.
unfoldable pub sin_usar : ℕ → List Tcb
sin_usar zero = []
sin_usar (suc n) = record { id = 0; state = free } ∷ sin_usar n

unfoldable pub set_tcb : ℕ → ℕ → State → Hilolay → Hilolay
set_tcb i id state h = record h { ults = set h.ults i (record { id = id; state = state }) }

unfoldable pub con_estado : ℕ → State → Hilolay → Resultado Hilolay
con_estado i state h = do
  t ← en_arreglo (get_elem? h.ults i)
  ok (record h { ults = set h.ults i (record t { state = state }) })

unfoldable pub hilolay_get_tid : Hilolay → Resultado ℕ
hilolay_get_tid h = do t ← en_arreglo (get_elem? h.ults h.current_ult); ok t.id

-- The library before `hilolay_init`.
unfoldable pub sin_iniciar : Hilolay
unfolding sin_usar
sin_iniciar = record { ults = sin_usar max_ults; current_ult = 0; next_id = 1 }

-- `swap_context` to the control block of that index.
unfoldable pub swap_context : ℕ → Hilolay → Resultado Hilolay
unfolding con_estado
swap_context i h = do
  h1 ← con_estado h.current_ult ready h
  h2 ← con_estado i running h1
  ok (record h2 { current_ult = i })

module _ {S : Type 0} (main_ops : HilolayOperations S) where
  unfoldable pub init_internal : S → Resultado (S × Hilolay)
  unfolding sin_iniciar set_tcb
  init_internal s = do
    t ← main_ops.suse_create main_thread_id s
    ok (t, set_tcb 0 main_thread_id running sin_iniciar)

  -- ERROR_TOO_MANY_ULTS is -1. The second part of what comes back is the number of the new thread.
  unfoldable pub hilolay_create : S → Hilolay → Resultado ((S × Hilolay) × (ℤ × Option ℕ))
  unfolding find_free_tcb set_tcb
  hilolay_create s h = elim (find_free_tcb h) [
    | none ↦ ok ((s, h), (negsuc 0, none))
    | some i ↦ do
      let tid = h.next_id
      let h1 = set_tcb i tid ready (record h { next_id = suc tid })
      t ← main_ops.suse_create tid s
      ok ((t, h1), (pos 0, some tid))
  ]

  -- `get_next_tid` answers NULL for a number that no control block has.
  unfoldable pub get_next_tid : S → Hilolay → Resultado (S × Option ℕ)
  unfolding buscar_tcb
  get_next_tid s h = do
    (t, tid) ← main_ops.suse_schedule_next s
    ok (t, buscar_tcb (λ u. u.id == tid) 0 h.ults)

  unfoldable pub hilolay_yield : S → Hilolay → Resultado (S × Hilolay)
  unfolding get_next_tid swap_context
  hilolay_yield s h = do (t, o) ← get_next_tid s h; i ← desref o; h1 ← swap_context i h; ok (t, h1)

  unfoldable pub hilolay_join : ℕ → S → Hilolay → Resultado (S × Hilolay)
  unfolding hilolay_yield
  hilolay_join tid s h = do t ← main_ops.suse_join tid s; hilolay_yield t h

  unfoldable pub hilolay_wait : List ℕ → S → Hilolay → Resultado (S × Hilolay)
  unfolding hilolay_get_tid hilolay_yield
  hilolay_wait name s h = do
    tid ← hilolay_get_tid h
    t ← main_ops.suse_wait tid name s
    hilolay_yield t h

  unfoldable pub hilolay_signal : List ℕ → S → Hilolay → Resultado (S × Hilolay)
  unfolding hilolay_get_tid hilolay_yield
  hilolay_signal name s h = do
    tid ← hilolay_get_tid h
    t ← main_ops.suse_signal tid name s
    hilolay_yield t h

  unfoldable pub hilolay_return : S → Hilolay → Resultado (S × Hilolay)
  unfolding hilolay_get_tid
  hilolay_return s h = do tid ← hilolay_get_tid h; t ← main_ops.suse_close tid s; ok (t, h)

  -- What `wrap` does once the routine of the thread has returned.
  unfoldable pub terminar : S → Hilolay → Resultado (S × Hilolay)
  unfolding hilolay_return hilolay_yield
  terminar s h = do (t, h1) ← hilolay_return s h; hilolay_yield t h1
