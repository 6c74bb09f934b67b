-- ===== src/Suse/Model.antt =====
-- The data of SUSE: `hilo`, `semaforo`, `programa` and the global variables of SUSE.c.
-- A dictionary keyed by `string_itoa(pid)` is keyed by the number. An estimate is a value of `E`:
-- the machine's `float`, of which the code uses what `Reales` lists.
use linuse_tp_os.Base.{
  ℕ, ◌+◌, ◌-◌, ◌%◌, ◌^◌, Bool, Option, List, clave_nombre, clave_numero, ℤ, Resultado, desref, Dict,
  lookup, insert,
}

-- `float` and ALPHA_SJF. `mezclar e r` is (1 - ALPHA) * e + ALPHA * r.
pub record Reales (E : Type 0) : Type 0 where
  pub cero : E
  pub menor : E → E → Bool
  pub menor_o_igual : E → E → Bool
  pub mezclar : E → ℕ → E

-- `int` fields that hold times are 32-bit patterns, `unsigned long long` ones 64-bit.
pub record Hilo (E : Type 0) : Type 0 where
  pub pid : ℕ
  pub tid : ℕ
  pub estimacion : E
  pub rafaga : ℕ
  pub tiempo_de_ejecucion : ℕ
  pub timestamp_creacion : ℕ
  pub suma_de_intervalos_en_ready : ℕ
  pub suma_de_intervalos_en_exec : ℕ
  pub timestamp_exec : ℕ
  pub timestamp_ready : ℕ

pub record Semaforo : Type 0 where
  pub valor_actual : ℤ
  pub valor_maximo : ℤ

-- `mutex_tomado` is the state of `mutexProgama`.
pub record Programa (E : Type 0) : Type 0 where
  pub esta_bloqueado : Bool
  pub mutex_tomado : Bool
  pub pid : ℕ
  pub exec : Option (Hilo E)
  pub blocked : Dict ℕ (List (Hilo E))
  pub cantidad_de_hilos_en_new : ℤ
  pub cantidad_de_hilos_en_ready : ℤ
  pub cantidad_de_hilos_en_blocked : ℤ
  pub tiempo_de_ejecucion_de_todos_los_hilos : ℕ

-- `en_mano` is the thread that `planificarReady` has popped and not yet admitted. `reloj` is what the
-- successive calls of `gettimeofday` return, in milliseconds, and `lecturas` counts those calls.
pub record Suse (E : Type 0) : Type 0 where
  pub semaforos : Dict (List ℕ) Semaforo
  pub ready : Dict ℕ (List (Hilo E))
  pub blocked_por_semaforo : Dict (List ℕ) (List (Hilo E))
  pub exit : Dict ℕ (List (Hilo E))
  pub programas : Dict ℕ (Programa E)
  pub new : List (Hilo E)
  pub hay_nuevos : ℕ
  pub maximo_procesamiento : ℕ
  pub en_mano : Option (Hilo E)
  pub inicio_rafaga : ℕ
  pub reloj : ℕ → ℕ
  pub lecturas : ℕ

-- A conversion to `int`, and the difference of two times as `unsigned long long`.
unfoldable pub a_int : ℕ → ℕ
a_int x = x % 2 ^ 32

unfoldable pub transcurrido : ℕ → ℕ → ℕ
transcurrido ahora antes = (ahora + 2 ^ 64 - antes % 2 ^ 64) % 2 ^ 64

module _ {E : Type 0} where
  abbrev pub get_microtime : Suse E → ℕ
  get_microtime s = s.reloj s.lecturas

  -- The state after one call of `getMicrotime`.
  abbrev pub leido : Suse E → Suse E
  leido s = record s { lecturas = s.lecturas + 1 }

  abbrev pub programa_de : ℕ → Suse E → Resultado (Programa E)
  programa_de pid s = desref (lookup pid s.programas)

  abbrev pub ready_de : ℕ → Suse E → Resultado (List (Hilo E))
  ready_de pid s = desref (lookup pid s.ready)

  abbrev pub con_programa : ℕ → Programa E → Suse E → Suse E
  con_programa pid p s = record s { programas = insert pid p s.programas }

  abbrev pub con_ready : ℕ → List (Hilo E) → Suse E → Suse E
  con_ready pid l s = record s { ready = insert pid l s.ready }
