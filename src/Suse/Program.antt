-- ===== src/Suse/Program.antt =====
-- Programs that connect and leave (`crearPrograma`, `limpiarEstructuras`), and the start of the server
-- (`iniciarSUSE`) of SUSE.c.
use linuse_tp_os.Base.{
  ℕ, ◌+◌, true, false, none, List, [], ◌∷◌, clave_nombre, clave_numero, ℤ, pos, Dict, insert, erase,
}
use linuse_tp_os.Suse.Model.{Semaforo, Programa, Suse, con_programa}

-- A semaphore of the configuration: its name, and SEM_INIT and SEM_MAX after `atoi`.
pub record SemConfig : Type 0 where
  pub id : List ℕ
  pub inicial : ℤ
  pub maximo : ℤ

-- The entries of both dictionaries that the `while` of `iniciarSUSE` puts in.
unfoldable pub semaforos_de : List SemConfig → Dict (List ℕ) Semaforo → Dict (List ℕ) Semaforo
semaforos_de [] d = d
semaforos_de (c ∷ cs) d =
    semaforos_de cs (insert c.id (record { valor_actual = c.inicial; valor_maximo = c.maximo }) d)

unfoldable pub colas_de {ℓ} :
    {A : Type ℓ} → List SemConfig → Dict (List ℕ) (List A) → Dict (List ℕ) (List A)
colas_de [] d = d
colas_de (c ∷ cs) d = colas_de cs (insert c.id [] d)

module _ {E : Type 0} where
  -- `iniciarSUSE`, with MAX_MULTIPROG.
  unfoldable pub iniciar_suse : List SemConfig → ℕ → (ℕ → ℕ) → Suse E
  unfolding semaforos_de colas_de
  iniciar_suse cs grado reloj = record {
    semaforos = semaforos_de cs [];
    ready = [];
    blocked_por_semaforo = colas_de cs [];
    exit = [];
    programas = [];
    new = [];
    hay_nuevos = 0;
    maximo_procesamiento = grado;
    en_mano = none;
    inicio_rafaga = 0;
    reloj = reloj;
    lecturas = 0;
  }

  -- The program that `crearPrograma` allocates, its mutex taken.
  unfoldable pub programa_nuevo : ℕ → Programa E
  programa_nuevo pid = record {
    esta_bloqueado = false;
    mutex_tomado = true;
    pid = pid;
    exec = none;
    blocked = [];
    cantidad_de_hilos_en_new = pos 0;
    cantidad_de_hilos_en_ready = pos 0;
    cantidad_de_hilos_en_blocked = pos 0;
    tiempo_de_ejecucion_de_todos_los_hilos = 0;
  }

  unfoldable pub crear_programa : ℕ → Suse E → Suse E
  unfolding programa_nuevo
  crear_programa pid s = con_programa pid (programa_nuevo pid) s

  unfoldable pub limpiar_estructuras : ℕ → Suse E → Suse E
  limpiar_estructuras pid s = record s {
    exit = erase pid s.exit;
    ready = erase pid s.ready;
    programas = erase pid s.programas;
  }

  -- The branch of `iniciarConexion` for a client that closed its socket.
  unfoldable pub desconectar : ℕ → Suse E → Suse E
  unfolding limpiar_estructuras
  desconectar pid s =
      limpiar_estructuras pid (record s { maximo_procesamiento = s.maximo_procesamiento + 1 })
