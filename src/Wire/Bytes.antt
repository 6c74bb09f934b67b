-- ===== src/Wire/Bytes.antt =====
-- What a reader takes back of what was written, with whatever follows it.
use linuse_tp_os.Base.{
  ℕ, zero, suc, ◌*◌, ◌/◌, ◌^◌, ◌≤◌, ◌<◌, ◌≡◌, refl, ap, subst, List, [], ◌∷◌, ◌++◌, arith, ℤ, pos,
  negsuc, indeterminado, ok, fallo, length,
}
use linuse_tp_os.Wire.{
  bytes_de, valor_de, int_de, leer, leer_int, campo, leer_campo, como_numero, leer_campo_int,
  con_signo, sin_signo, campo_int, campo_signo, leer_campo_signo,
}
use mathlib.Core.List.{append-nil, append_assoc}
use native.Mathlib.Nat.{div-add-mod}

pub length-int_de : (x : ℕ) → length (int_de x) ≡ 4
unfolding int_de bytes_de
length-int_de x = refl

length-bytes_de : (w x : ℕ) → length (bytes_de w x) ≡ w
unfolding bytes_de
length-bytes_de zero x = refl
length-bytes_de (suc w) x = ap suc (length-bytes_de w (x / 256))

cota_suc : (w : ℕ) → 256 ^ suc w ≡ 256 * 256 ^ w
cota_suc w = omega arith

pub valor_de-bytes_de : (w x : ℕ) → x < 256 ^ w → valor_de (bytes_de w x) ≡ x
unfolding bytes_de valor_de
valor_de-bytes_de zero x h = omega arith
valor_de-bytes_de (suc w) x h = omega (
  arith,
  cota_suc w,
  div-add-mod x 256,
  valor_de-bytes_de w (x / 256) (omega (arith, cota_suc w)),
)

pub leer-append : (bs r : List ℕ) → leer (length bs) (bs ++ r) ≡ ok (bs, r)
unfolding leer
leer-append [] r = refl
leer-append (b ∷ bs) r = rw (leer-append bs r)

pub leer-append_igual : (n : ℕ) (bs r : List ℕ) → length bs ≡ n → leer n (bs ++ r) ≡ ok (bs, r)
leer-append_igual n bs r e = subst (λ m. leer m (bs ++ r) ≡ ok (bs, r)) e (leer-append bs r)

pub leer-bytes_de : (w x : ℕ) (r : List ℕ) → leer w (bytes_de w x ++ r) ≡ ok (bytes_de w x, r)
leer-bytes_de w x r = leer-append_igual w (bytes_de w x) r (length-bytes_de w x)

pub leer_int-int_de : (x : ℕ) (r : List ℕ) → x < 2 ^ 32 → leer_int (int_de x ++ r) ≡ ok (x, r)
unfolding leer_int int_de
leer_int-int_de x r h = rw (leer-bytes_de 4 x r, valor_de-bytes_de 4 x h)

pub leer_campo-campo :
    (bs r : List ℕ) → length bs < 2 ^ 31 → leer_campo (campo bs ++ r) ≡ ok (bs, r)
unfolding leer_campo campo
leer_campo-campo bs r h =
    rw (append_assoc, leer_int-int_de (length bs) (bs ++ r) (omega arith))
      (ground (arith, leer-append bs r))

como_numero-bytes_de : (w x : ℕ) → x < 256 ^ w → como_numero w (bytes_de w x) ≡ ok x
unfolding como_numero
como_numero-bytes_de w x h =
    subst
      (λ bs.
        (elim (leer w bs) [ fallo e ↦ fallo indeterminado | ok (ys, r) ↦ ok (valor_de ys) ]) ≡ ok x)
      (append-nil (bytes_de w x)) (rw (leer-bytes_de w x [], valor_de-bytes_de w x h))

pub leer_campo_int-campo_int :
    (x : ℕ) (r : List ℕ) → x < 2 ^ 32 → leer_campo_int (campo_int x ++ r) ≡ ok (x, r)
unfolding leer_campo_int campo_int int_de
leer_campo_int-campo_int x r h = rw (
  leer_campo-campo (bytes_de 4 x) r (omega (arith, length-bytes_de 4 x)),
  como_numero-bytes_de 4 x h,
)

-- The signed numbers of an `int`.
abbrev pub IsInt : ℤ → Type 0
IsInt (pos n) = n < 2 ^ 31
IsInt (negsuc n) = n < 2 ^ 31

pub con_signo-sin_signo : (z : ℤ) → IsInt z → con_signo (sin_signo z) ≡ z
unfolding con_signo sin_signo
con_signo-sin_signo (pos n) h = ground arith
con_signo-sin_signo (negsuc n) h = ground arith

sin_signo_lt : (z : ℤ) → sin_signo z < 2 ^ 32
unfolding sin_signo
sin_signo_lt (pos n) = omega arith
sin_signo_lt (negsuc n) = omega arith

pub leer_campo_signo-campo_signo :
    (z : ℤ) (r : List ℕ) → IsInt z → leer_campo_signo (campo_signo z ++ r) ≡ ok (z, r)
unfolding leer_campo_signo campo_signo campo_int
leer_campo_signo-campo_signo z r h =
    rw (leer_campo_int-campo_int (sin_signo z) r (sin_signo_lt z), con_signo-sin_signo z h)

pub leer_campo_signo-campo_int :
    (x : ℕ) (r : List ℕ) → x < 2 ^ 31 → leer_campo_signo (campo_int x ++ r) ≡ ok (pos x, r)
unfolding leer_campo_signo con_signo
leer_campo_signo-campo_int x r h = rw (leer_campo_int-campo_int x r (omega arith)) (ground arith)

-- The size of an `int`, and the `int` after it.
pub leer_int-campo_int :
    (n : ℕ) (e : List ℕ) → leer_int (campo_int n ++ e) ≡ ok (length (int_de n), int_de n ++ e)
unfolding campo_int campo
leer_int-campo_int n e = rw (
  append_assoc (int_de (length (int_de n))) (int_de n) e,
  leer_int-int_de (length (int_de n)) (int_de n ++ e) (omega (arith, length-int_de n)),
)

-- The same, with nothing after it.
pub leer_final : (bs : List ℕ) → leer (length bs) bs ≡ ok (bs, [])
leer_final bs = rw append-nil at (leer-append bs [])

pub leer_int_final : (x : ℕ) → x < 2 ^ 32 → leer_int (int_de x) ≡ ok (x, [])
leer_int_final x h = rw append-nil at (leer_int-int_de x [] h)

pub leer_int-campo_int_final : (n : ℕ) → leer_int (campo_int n) ≡ ok (length (int_de n), int_de n)
leer_int-campo_int_final n =
    rw (append-nil (campo_int n), append-nil (int_de n)) at (leer_int-campo_int n [])

pub leer_campo_int_final : (x : ℕ) → x < 2 ^ 32 → leer_campo_int (campo_int x) ≡ ok (x, [])
leer_campo_int_final x h = rw append-nil at (leer_campo_int-campo_int x [] h)

pub leer_campo_signo_final : (z : ℤ) → IsInt z → leer_campo_signo (campo_signo z) ≡ ok (z, [])
leer_campo_signo_final z h = rw append-nil at (leer_campo_signo-campo_signo z [] h)

-- Four bytes or more can be read as an `int`.
pub como_numero-largo : (bs : List ℕ) → 4 ≤ length bs → (z : ℕ) × (como_numero 4 bs ≡ ok z)
unfolding como_numero leer
como_numero-largo [] h = absurd (omega arith)
como_numero-largo (a ∷ []) h = absurd (omega arith)
como_numero-largo (a ∷ b ∷ []) h = absurd (omega arith)
como_numero-largo (a ∷ b ∷ c ∷ []) h = absurd (omega arith)
como_numero-largo (a ∷ b ∷ c ∷ d ∷ bs) h = (_, refl)

pub leer_campo_int-campo_signo :
    (z : ℤ) (r : List ℕ) → leer_campo_int (campo_signo z ++ r) ≡ ok (sin_signo z, r)
unfolding campo_signo campo_int
leer_campo_int-campo_signo z r = leer_campo_int-campo_int (sin_signo z) r (sin_signo_lt z)
