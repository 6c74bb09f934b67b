-- ===== src/Suse/Tests/Sort.antt =====
-- A sort by insertion, in the place of `list_sort` of the commons library.
use linuse_tp_os.Base.{
  ◌≡◌, refl, inl, inr, Bool, true, false, List, [], ◌∷◌, arith, if◌then◌else◌, Bool-cases, All,
  cuantos, Ordenada,
}
use linuse_tp_os.Suse.Invariant.Choice.{IsOrdenar}

module _ {A : Type 0} (c : A → A → Bool) where
  unfoldable pub meter : A → List A → List A
  meter x [] = x ∷ []
  meter x (y ∷ l) = if c x y then x ∷ y ∷ l else y ∷ meter x l

  unfoldable pub por_insercion : List A → List A
  unfolding meter
  por_insercion [] = []
  por_insercion (x ∷ l) = meter x (por_insercion l)

  cuantos-meter : (q : A → Bool) (x : A) (l : List A) → cuantos q (meter x l) ≡ cuantos q (x ∷ l)
  unfolding meter
  cuantos-meter q x [] = refl
  cuantos-meter q x (y ∷ l) = ground (arith, cuantos-meter q x l)

  pub cuantos-por_insercion :
      (q : A → Bool) (l : List A) → cuantos q (por_insercion l) ≡ cuantos q l
  unfolding por_insercion
  cuantos-por_insercion q [] = refl
  cuantos-por_insercion q (x ∷ l) =
      ground (arith, cuantos-meter q x (por_insercion l), cuantos-por_insercion q l)

  All-meter :
      (z x : A) (l : List A)
      → c z x ≡ true
      → All (λ y. c z y ≡ true) l
      → All (λ y. c z y ≡ true) (meter x l)
  unfolding meter
  All-meter z x [] h a = (h, tt)
  All-meter z x (y ∷ l) h a = elim (Bool-cases (c x y)) [
    | inl b ↦ rw b (h, a)
    | inr b ↦ rw b (a.0, All-meter z x l h a.1)
  ]

  module _ (total : (a b : A) → c a b ≡ false → c b a ≡ true)
      (trans : (a b d : A) → c a b ≡ true → c b d ≡ true → c a d ≡ true) where
    All-trans :
        (x y : A) (l : List A)
        → c x y ≡ true
        → All (λ z. c y z ≡ true) l
        → All (λ z. c x z ≡ true) l
    All-trans x y [] h a = tt
    All-trans x y (z ∷ l) h a = (trans x y z h a.0, All-trans x y l h a.1)

    meter-Ordenada : (x : A) (l : List A) → Ordenada c l → Ordenada c (meter x l)
    unfolding meter
    meter-Ordenada x [] o = (tt, tt)
    meter-Ordenada x (y ∷ l) o = elim (Bool-cases (c x y)) [
      | inl b ↦ rw b ((b, All-trans x y l b o.0), o)
      | inr b ↦ rw b (All-meter y x l (total x y b) o.0, meter-Ordenada x l o.1)
    ]

    pub por_insercion-Ordenada : (l : List A) → Ordenada c (por_insercion l)
    unfolding por_insercion
    por_insercion-Ordenada [] = tt
    por_insercion-Ordenada (x ∷ l) = meter-Ordenada x (por_insercion l) (por_insercion-Ordenada l)

pub por_insercion-IsOrdenar : {E : Type 0} → IsOrdenar {E = E} (λ c l. por_insercion c l)
por_insercion-IsOrdenar = record {
  permuta = λ c q l. cuantos-por_insercion c q l;
  ordena = λ c t r l. por_insercion-Ordenada c t r l;
}
