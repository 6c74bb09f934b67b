-- ===== src/Hilolay/Tests/Calls.antt =====
-- The library over a planner that always answers.
use linuse_tp_os.Base.{ℕ, suc, ◌≡◌, refl, some, [], ◌∷◌, pos, ok, Logra}
use linuse_tp_os.Hilolay.{
  running, ready, Hilolay, main_thread_id, HilolayOperations, set_tcb, sin_iniciar, hilolay_create,
  hilolay_yield,
}
use linuse_tp_os.Hilolay.Table.{IsTabla, cambiada, inicial-Tabla}
use linuse_tp_os.Hilolay.Calls.{
  crea, cede, termina, hilolay_create-Crea, hilolay_yield-Cede, correr, correr-Tabla,
}

-- A planner that answers the number that it keeps, and counts the threads that it was told of.
abbrev un_planificador : HilolayOperations (ℕ × ℕ)
un_planificador = record {
  suse_create = λ tid s. ok (s.0, suc s.1);
  suse_schedule_next = λ s. ok (s, s.0);
  suse_join = λ tid s. ok s;
  suse_close = λ tid s. ok s;
  suse_wait = λ tid id s. ok s;
  suse_signal = λ tid id s. ok s;
}

abbrev recien_iniciada : Hilolay
recien_iniciada = set_tcb 0 main_thread_id running sin_iniciar

hilolay_create-Crea_example :
    hilolay_create un_planificador (0, 1) recien_iniciada
    ≡ ok (((0, 2), set_tcb 1 1 ready (record recien_iniciada { next_id = 2 })), (pos 0, some 1))
unfolding set_tcb sin_iniciar
hilolay_create-Crea_example =
    hilolay_create-Crea un_planificador (0, 1) recien_iniciada inicial-Tabla

hilolay_yield-Cede_example :
    hilolay_yield un_planificador (0, 1) recien_iniciada
    ≡ ok ((0, 1), record recien_iniciada { ults = cambiada recien_iniciada 0; current_ult = 0 })
unfolding set_tcb sin_iniciar
hilolay_yield-Cede_example =
    hilolay_yield-Cede un_planificador (0, 1) (0, 1) recien_iniciada 0 inicial-Tabla refl

correr-Tabla_example :
    Logra
      (λ (r : (ℕ × ℕ) × Hilolay). IsTabla r.1 × (r.1.next_id ≡ 3))
      (correr un_planificador (crea ∷ crea ∷ cede ∷ termina ∷ []) (0, 0))
correr-Tabla_example = correr-Tabla un_planificador (crea ∷ crea ∷ cede ∷ termina ∷ []) (0, 0)
