-- ===== src/Suse/Schedule/Minimal.antt =====
-- Which thread executes after `siguienteAEjecutar` (SUSE.c).
use linuse_tp_os.Base.{
  ℕ, ◌≡◌, refl, ap, ◌∙◌, inl, inr, true, false, not, Option, none, some, List, [], ◌∷◌, arith,
  Bool-cases, clave_nombre, clave_numero, Garantiza, Garantiza-desref, All, All-append, All-weaken,
  Ordenada, lookup, lookup-insert_self,
}
use linuse_tp_os.Suse.Model.{Reales, Hilo, Programa, Suse, con_ready}
use linuse_tp_os.Suse.Schedule.{
  Eleccion, elegido, bloqueado, Ordenar, sale_de_exec, sigue_en_exec, entra_a_exec, poner_en_exec,
  desalojar, continuar, recalcular_exec, recalcular_estimacion, tiene_menor_estimacion,
  replanificar_hilos, elegir, calcular_siguiente_hilo, siguiente_a_ejecutar,
}
use linuse_tp_os.Suse.Invariant.Choice.{IsOrdenar}

-- What the comparisons of two machine reals answer where none is NaN.
pub record IsReales {E : Type 0} (R : Reales E) : Type 0 where
  pub total : (a b : E) → R.menor_o_igual a b ≡ false → R.menor_o_igual b a ≡ true
  pub transitivo :
      (a b c : E)
      → R.menor_o_igual a b ≡ true
      → R.menor_o_igual b c ≡ true
      → R.menor_o_igual a c ≡ true
  pub estricto : (a b : E) → R.menor a b ≡ not (R.menor_o_igual b a)

-- The program executes the thread `tid`, and none in Ready has a lower estimate.
pub record Ejecuta {E : Type 0} (R : Reales E) (pid tid : ℕ) (t : Suse E) : Type 0 where
  pub programa : Programa E
  pub hilo : Hilo E
  pub en_ready : List (Hilo E)
  pub existe : lookup pid t.programas ≡ some programa
  pub ejecutando : programa.exec ≡ some hilo
  pub numero : hilo.tid ≡ tid
  pub lista : lookup pid t.ready ≡ some en_ready
  pub minima : All (λ g. R.menor_o_igual hilo.estimacion g.estimacion ≡ true) en_ready

-- The program waits: it executes none and has none in Ready.
pub record Espera {E : Type 0} (pid : ℕ) (t : Suse E) : Type 0 where
  pub programa : Programa E
  pub existe : lookup pid t.programas ≡ some programa
  pub sin_exec : programa.exec ≡ none
  pub bloqueado_lem : programa.esta_bloqueado ≡ true
  pub lista : lookup pid t.ready ≡ some []

abbrev pub Minima : {E : Type 0} → Reales E → ℕ → Eleccion E → Type 0
Minima R pid (elegido tid t) = Ejecuta R pid tid t
Minima R pid (bloqueado t) = Espera pid t

module _ {E : Type 0} (R : Reales E) (c : IsReales R) where
  abbrev Debajo : Hilo E → List (Hilo E) → Type 0
  Debajo h = All (λ g. R.menor_o_igual h.estimacion g.estimacion ≡ true)

  elegir-Minima :
      (pid : ℕ) (o : Option (Hilo E)) (l : List (Hilo E)) (p : Programa E) (s : Suse E)
      → lookup pid s.programas ≡ some p
      → lookup pid s.ready ≡ some l
      → p.exec ≡ o
      → Ordenada (λ a b. R.menor_o_igual a.estimacion b.estimacion) l
      → Minima R pid (elegir R pid o l p s)
  unfolding elegir desalojar continuar poner_en_exec sigue_en_exec entra_a_exec sale_de_exec
  elegir-Minima pid (some e) [] p s g f x d = record {
    programa = _;
    hilo = _;
    en_ready = [];
    existe = lookup-insert_self pid _ s.programas;
    ejecutando = refl;
    numero = refl;
    lista = f;
    minima = tt;
  }
  elegir-Minima pid (some e) (h ∷ r) p s g f x d =
      let k = c.estricto h.estimacion e.estimacion in
      elim (Bool-cases (R.menor h.estimacion e.estimacion)) [
        | inl m ↦
            let n : R.menor_o_igual e.estimacion h.estimacion ≡ false = ground arith in
            rw m (record {
              programa = _;
              hilo = _;
              en_ready = _;
              existe = lookup-insert_self pid _ s.programas;
              ejecutando = refl;
              numero = refl;
              lista = lookup-insert_self pid _ s.ready;
              minima = All-append _ r _ d.0 (c.total e.estimacion h.estimacion n, tt);
            })
        | inr m ↦
            let n : R.menor_o_igual e.estimacion h.estimacion ≡ true = ground arith in
            rw m (record {
              programa = _;
              hilo = _;
              en_ready = h ∷ r;
              existe = lookup-insert_self pid _ s.programas;
              ejecutando = refl;
              numero = refl;
              lista = f;
              minima = (
                n,
                All-weaken _ _ r (λ z u. c.transitivo e.estimacion h.estimacion z.estimacion n u)
                    d.0,
              );
            })
      ]
  elegir-Minima pid none [] p s g f x d = record {
    programa = _;
    existe = lookup-insert_self pid _ s.programas;
    sin_exec = x;
    bloqueado_lem = refl;
    lista = f;
  }
  elegir-Minima pid none (h ∷ r) p s g f x d = record {
    programa = _;
    hilo = _;
    en_ready = r;
    existe = lookup-insert_self pid _ s.programas;
    ejecutando = refl;
    numero = refl;
    lista = lookup-insert_self pid r s.ready;
    minima = d.0;
  }

  recalcular_exec-existe :
      (pid : ℕ) (o : Option (Hilo E)) (p : Programa E) (s : Suse E)
      → lookup pid s.programas ≡ some p
      → ((q : Programa E) × (lookup pid (recalcular_exec R pid p o s).programas ≡ some q))
        × ((recalcular_exec R pid p o s).ready ≡ s.ready)
  unfolding recalcular_exec
  recalcular_exec-existe pid none p s e = ((p, e), refl)
  recalcular_exec-existe pid (some h) p s e = ((_, lookup-insert_self pid _ s.programas), refl)

  recalcular_estimacion-existe :
      (pid : ℕ) (p : Programa E) (s : Suse E)
      → lookup pid s.programas ≡ some p
      → ((q : Programa E) × (lookup pid (recalcular_estimacion R pid s).programas ≡ some q))
        × ((recalcular_estimacion R pid s).ready ≡ s.ready)
  unfolding recalcular_estimacion
  recalcular_estimacion-existe pid p s e =
      rw (e, recalcular_estimacion) (recalcular_exec-existe pid p.exec p s e)

  calcular_siguiente_hilo-Minima :
      (pid : ℕ) (p : Programa E) (l : List (Hilo E)) (s : Suse E)
      → lookup pid s.programas ≡ some p
      → lookup pid s.ready ≡ some l
      → Ordenada (λ a b. R.menor_o_igual a.estimacion b.estimacion) l
      → Garantiza (Minima R pid) (calcular_siguiente_hilo R pid s)
  unfolding calcular_siguiente_hilo
  calcular_siguiente_hilo-Minima pid p l s e f d =
      Garantiza-desref (Minima R pid) (lookup pid s.ready) l _ f (
        Garantiza-desref (Minima R pid) (lookup pid s.programas) p _ e
          (elegir-Minima pid p.exec l p s e f refl d))

  -- With comparisons that are total and transitive and a sort that orders, for a program that exists
  -- and has a Ready list `siguienteAEjecutar` ends. When it answers a thread, that thread executes and
  -- no thread in Ready of its program has a lower estimate; when it has none to answer, the program
  -- executes none, has none in Ready, and is marked as blocked.
  pub siguiente_a_ejecutar-Minima :
      (ordenar : Ordenar E)
      → IsOrdenar ordenar
      → (pid : ℕ) (p : Programa E) (l : List (Hilo E)) (s : Suse E)
      → lookup pid s.programas ≡ some p
      → lookup pid s.ready ≡ some l
      → Garantiza (Minima R pid) (siguiente_a_ejecutar R ordenar pid s)
  unfolding siguiente_a_ejecutar replanificar_hilos tiene_menor_estimacion
  siguiente_a_ejecutar-Minima ordenar o pid p l s e f =
      let s0 = recalcular_estimacion R pid s in
      let ((q, g), k) = recalcular_estimacion-existe pid p s e in
      let m = λ (a b : Hilo E). R.menor_o_igual a.estimacion b.estimacion in
      let f0 : lookup pid s0.ready ≡ some l = ap (lookup pid) k ∙ f in
      rw f0 (
        calcular_siguiente_hilo-Minima pid q (ordenar m l) (con_ready pid (ordenar m l) s0) g
          (lookup-insert_self pid (ordenar m l) s0.ready)
          (o.ordena m (λ a b. c.total a.estimacion b.estimacion)
            (λ a b d. c.transitivo a.estimacion b.estimacion d.estimacion) l))
