-- ===== src/Suse/Invariant.antt =====
-- What the dictionaries of programs and of Ready lists say of each other at every moment (SUSE.c):
-- the counters of Ready are exact, and a program that waits for an answer executes no thread.
pub mod Admission
pub mod Choice
pub mod Waiting
pub mod Untouched
pub mod Closing
use linuse_tp_os.Base.{
  ℕ, ◌≡◌, refl, sym, ap, ◌∙◌, subst, inl, inr, Bool, true, false, ◌||◌, not, Option, none, some,
  List, [], ◌∷◌, ◌++◌, arith, ◌==◌, ==_iff, Bool-cases, clave_nombre, clave_numero, ℤ, pos, inc,
  inc-pos, ◌>>=◌, length, length-append, Dict, lookup, insert, erase, lookup-insert, lookup-erase,
}
use linuse_tp_os.Suse.Model.{Hilo, Programa, Suse}

module _ {E : Type 0} where
  -- The program has asked for its next thread, and still waits on its mutex.
  abbrev pub espera_respuesta : Programa E → Bool
  espera_respuesta p = p.esta_bloqueado || not p.mutex_tomado

  -- A program and the Ready list of its number.
  abbrev pub SonCoherentes : Option (Programa E) → Option (List (Hilo E)) → Type 0
  SonCoherentes none r = r ≡ none
  SonCoherentes (some p) none =
      (p.cantidad_de_hilos_en_ready ≡ pos 0) × (p.exec ≡ none) × (espera_respuesta p ≡ false)
  SonCoherentes (some p) (some l) =
      (p.cantidad_de_hilos_en_ready ≡ pos (length l))
      × (espera_respuesta p ≡ true → p.exec ≡ none)
      × (p.mutex_tomado ≡ false → p.esta_bloqueado ≡ false)

  abbrev pub Coherencia : Dict ℕ (Programa E) → Dict ℕ (List (Hilo E)) → Type 0
  Coherencia ps ls = (pid : ℕ) → SonCoherentes (lookup pid ps) (lookup pid ls)

  abbrev pub IsCoherente : Suse E → Type 0
  IsCoherente s = Coherencia s.programas s.ready

  module _ (ps : Dict ℕ (Programa E)) (ls : Dict ℕ (List (Hilo E))) (c : Coherencia ps ls) where
    -- What a program that is looked up satisfies.
    pub coherente_en :
        (pid : ℕ) (p : Programa E) → lookup pid ps ≡ some p → SonCoherentes (some p) (lookup pid ls)
    coherente_en pid p e = subst (λ o. SonCoherentes o (lookup pid ls)) e (c pid)

    pub Coherencia-insert :
        (k : ℕ) (p : Programa E)
        → SonCoherentes (some p) (lookup k ls)
        → Coherencia (insert k p ps) ls
    Coherencia-insert k p h pid = elim (Bool-cases (k == pid)) [
      | inl e ↦ rw (lookup-insert k pid p ps, e) (rw ((==_iff k pid).0 e) at h)
      | inr e ↦ rw (lookup-insert k pid p ps, e) (c pid)
    ]

    pub coherente_con :
        (pid : ℕ) (p : Programa E) (l : List (Hilo E))
        → lookup pid ps ≡ some p
        → lookup pid ls ≡ some l
        → SonCoherentes (some p) (some l)
    coherente_con pid p l e f = subst (SonCoherentes (some p)) f (coherente_en pid p e)

    pub Coherencia-insert_at :
        (k : ℕ) (p : Programa E) (l : List (Hilo E))
        → lookup k ls ≡ some l
        → SonCoherentes (some p) (some l)
        → Coherencia (insert k p ps) ls
    Coherencia-insert_at k p l f h = Coherencia-insert k p (rw f h)

    pub Coherencia-insert_both :
        (k : ℕ) (p : Programa E) (l : List (Hilo E))
        → SonCoherentes (some p) (some l)
        → Coherencia (insert k p ps) (insert k l ls)
    Coherencia-insert_both k p l h pid = elim (Bool-cases (k == pid)) [
      | inl e ↦ rw (lookup-insert k pid p ps, lookup-insert k pid l ls, e) h
      | inr e ↦ rw (lookup-insert k pid p ps, lookup-insert k pid l ls, e) (c pid)
    ]

    pub Coherencia-erase : (k : ℕ) → Coherencia (erase k ps) (erase k ls)
    Coherencia-erase k pid = elim (Bool-cases (k == pid)) [
      | inl e ↦ rw (lookup-erase k pid ps, lookup-erase k pid ls, e) refl
      | inr e ↦ rw (lookup-erase k pid ps, lookup-erase k pid ls, e) (c pid)
    ]

  -- A program whose other fields change, and one that stops executing.
  pub SonCoherentes-same :
      (p q : Programa E) (r : Option (List (Hilo E)))
      → SonCoherentes (some p) r
      → q.cantidad_de_hilos_en_ready ≡ p.cantidad_de_hilos_en_ready
      → q.exec ≡ p.exec
      → q.esta_bloqueado ≡ p.esta_bloqueado
      → q.mutex_tomado ≡ p.mutex_tomado
      → SonCoherentes (some q) r
  SonCoherentes-same p q none k e f g m = ground arith
  SonCoherentes-same p q (some l) k e f g m = ground arith

  pub SonCoherentes-idle :
      (p q : Programa E) (r : Option (List (Hilo E)))
      → SonCoherentes (some p) r
      → q.cantidad_de_hilos_en_ready ≡ p.cantidad_de_hilos_en_ready
      → q.exec ≡ none
      → q.esta_bloqueado ≡ p.esta_bloqueado
      → q.mutex_tomado ≡ p.mutex_tomado
      → SonCoherentes (some q) r
  SonCoherentes-idle p q none k e f g m = ground arith
  SonCoherentes-idle p q (some l) k e f g m = ground arith

  SonCoherentes-length :
      (o : Option (Programa E)) (l m : List (Hilo E))
      → length m ≡ length l
      → SonCoherentes o (some l)
      → SonCoherentes o (some m)
  SonCoherentes-length none l m e k = cc
  SonCoherentes-length (some p) l m e (a, b, d) = (a ∙ sym (ap pos e), b, d)

  pub Coherencia-permute :
      (ps : Dict ℕ (Programa E)) (ls : Dict ℕ (List (Hilo E))) (k : ℕ) (l m : List (Hilo E))
      → Coherencia ps ls
      → lookup k ls ≡ some l
      → length m ≡ length l
      → Coherencia ps (insert k m ls)
  Coherencia-permute ps ls k l m c f e pid = elim (Bool-cases (k == pid)) [
    | inl t ↦
        rw (lookup-insert k pid m ls, t, ← (==_iff k pid).0 t)
          (SonCoherentes-length (lookup k ps) l m e (subst (SonCoherentes (lookup k ps)) f (c k)))
    | inr t ↦ rw (lookup-insert k pid m ls, t) (c pid)
  ]

  -- The executing thread is measured anew.
  pub SonCoherentes-exec :
      (p q : Programa E) (h : Hilo E) (r : Option (List (Hilo E)))
      → p.exec ≡ some h
      → SonCoherentes (some p) r
      → q.cantidad_de_hilos_en_ready ≡ p.cantidad_de_hilos_en_ready
      → q.esta_bloqueado ≡ p.esta_bloqueado
      → q.mutex_tomado ≡ p.mutex_tomado
      → SonCoherentes (some q) r
  SonCoherentes-exec p q h none x k e f g = cc (x, k.1)
  SonCoherentes-exec p q h (some l) x k e f g = ground arith

  -- One more thread at the end of Ready.
  pub inc-length :
      (l : List (Hilo E)) (h : Hilo E) {n : ℤ}
      → n ≡ pos (length l)
      → inc n ≡ pos (length (l ++ h ∷ []))
  inc-length l h e = rw (e, inc-pos (length l), length-append l (h ∷ [])) refl

  -- A program that waited is let go: it still waits for its answer.
  pub SonCoherentes-woken :
      (p q : Programa E) (r : Option (List (Hilo E)))
      → SonCoherentes (some p) r
      → p.esta_bloqueado ≡ true
      → q.cantidad_de_hilos_en_ready ≡ p.cantidad_de_hilos_en_ready
      → q.exec ≡ p.exec
      → q.esta_bloqueado ≡ false
      → SonCoherentes (some q) r
  SonCoherentes-woken p q none k b e f g = ground arith
  SonCoherentes-woken p q (some l) k b e f g = ground arith
