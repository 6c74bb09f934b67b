-- ===== src/SacCli/Listing.antt =====
-- `hello_readdir` of Sac-Cli/sacCli.c over `o_readDir` of Sac-Server/operaciones.c.
use mathlib.Core.List.{append-nil}
use linuse_tp_os.Base.{
  ℕ, ◌^◌, ◌<◌, ◌≡◌, refl, ◌≢◌, ◌⊎◌, inl, inr, true, false, List, [], ◌∷◌, ◌++◌, arith, ◌==◌,
  if◌then◌else◌, ==_iff, Bool-cases, pos, negsuc, ok, length, All, All-append,
}
use linuse_tp_os.Wire.{campo, leer_campo, sin_signo, campo_int, limpia}
use linuse_tp_os.Wire.Bytes.{leer_campo-campo, leer_campo_int-campo_int, leer_campo_int-campo_signo}
use linuse_tp_os.Sac.Model.{Archivo, Disco}
use linuse_tp_os.Sac.Attributes.{esta_en, pegotear, o_read_dir, operaciones_de}
use linuse_tp_os.Sac.Paths.{ningun_nodo, dame_nodo_de}
use linuse_tp_os.Sac.Connection.{Operaciones, despachar}
use linuse_tp_os.SacCli.Remote.{IsRuta, IsCorte}
use linuse_tp_os.SacCli.{hello_readdir}
use linuse_tp_os.SacCli.Attributes.{que_envia}

-- The listing of the directory of number `nodo`: for each node of the table a ";", after its name where
-- it is a file or a directory (1 or 2) of that directory.
pub data Listado (nodo : ℕ) : List Archivo → List ℕ → Type 0 where
  vacio : Listado nodo [] []
  nombrado :
      {f : Archivo} {fs : List Archivo} {l : List ℕ}
      → f.bloque_padre ≡ nodo
      → (f.estado ≡ 1) ⊎ (f.estado ≡ 2)
      → Listado nodo fs l
      → Listado nodo (f ∷ fs) (f.nombre_archivo ++ (59 ∷ l))
  de_otro :
      {f : Archivo} {fs : List Archivo} {l : List ℕ}
      → f.bloque_padre ≢ nodo
      → Listado nodo fs l
      → Listado nodo (f ∷ fs) (59 ∷ l)
  sin_uso :
      {f : Archivo} {fs : List Archivo} {l : List ℕ}
      → f.estado ≢ 1
      → f.estado ≢ 2
      → Listado nodo fs l
      → Listado nodo (f ∷ fs) (59 ∷ l)

Listado-pegotear :
    (nodo : ℕ) (fs : List Archivo) (l : List ℕ) → Listado nodo fs l → pegotear nodo fs ≡ l
unfolding pegotear
Listado-pegotear nodo [] l vacio = refl
Listado-pegotear nodo (f ∷ fs) l (nombrado p u x) =
    let b : esta_en nodo f ≡ true = elim u [
      | inl a ↦ ground (arith, ==_iff f.bloque_padre nodo)
      | inr a ↦ ground (arith, ==_iff f.bloque_padre nodo)
    ] in
    rw (b, Listado-pegotear nodo fs _ x) refl
Listado-pegotear nodo (f ∷ fs) l (de_otro p x) =
    let b : esta_en nodo f ≡ false = ground (arith, ==_iff f.bloque_padre nodo) in
    rw (b, Listado-pegotear nodo fs _ x) refl
Listado-pegotear nodo (f ∷ fs) l (sin_uso p q x) =
    let b : esta_en nodo f ≡ false = ground (arith, ==_iff f.bloque_padre nodo) in
    rw (b, Listado-pegotear nodo fs _ x) refl

-- The names of a table of nodes have no zero.
abbrev pub SinCeros : List ℕ → Type 0
SinCeros bs = All (λ b. (b == 0) ≡ false) bs

pegotear-SinCeros :
    (nodo : ℕ) (fs : List Archivo)
    → All (λ f. SinCeros f.nombre_archivo) fs
    → SinCeros (pegotear nodo fs)
unfolding pegotear
pegotear-SinCeros nodo [] h = tt
pegotear-SinCeros nodo (f ∷ fs) h = elim (Bool-cases (esta_en nodo f)) [
  | inl e ↦ rw e (All-append _ f.nombre_archivo _ h.0 (refl, pegotear-SinCeros nodo fs h.1))
  | inr e ↦ rw e (refl, pegotear-SinCeros nodo fs h.1)
]

module _ (string_substring_until : List ℕ → ℕ → List ℕ) (ahora : ℕ) (resto : Operaciones Disco)
    (corte : IsCorte string_substring_until) (string_split : List ℕ → List (List ℕ)) where
  hello_readdir-pegotear :
      (path : List ℕ) (nodo : ℕ) (d : Disco)
      → IsRuta path
      → dame_nodo_de path d.tabla ≡ ok nodo
      → All (λ f. SinCeros f.nombre_archivo) d.tabla
      → length (pegotear nodo d.tabla) < 2 ^ 31
      → hello_readdir string_substring_until
          (operaciones_de ahora resto)
          string_split
          path
          (limpia d)
        ≡ ok (
            if nodo == ningun_nodo
            then (
              record {
                pendiente = campo_int 0 ++ campo (pegotear nodo d.tabla);
                por_atender = [];
                servidor = d;
              },
              (negsuc 1, []),
            )
            else (limpia d, (pos 0, string_split (pegotear nodo d.tabla))))
  unfolding hello_readdir despachar operaciones_de o_read_dir
  hello_readdir-pegotear path nodo d h n z l = elim (Bool-cases (nodo == ningun_nodo)) [
    | inl falta ↦
        rw
          (
            que_envia string_substring_until ahora resto corte 4 o_read_dir path d (omega arith)
                (λ e. refl) h,
            n,
            falta,
            leer_campo_int-campo_signo (negsuc 0) (campo_int 0 ++ campo (pegotear nodo d.tabla)),
          )
          (unfold sin_signo in refl)
    | inr esta ↦
        let leido : leer_campo (campo (pegotear nodo d.tabla)) ≡ ok (pegotear nodo d.tabla, []) =
          rw append-nil at (leer_campo-campo (pegotear nodo d.tabla) [] l) in
        rw (
          que_envia string_substring_until ahora resto corte 4 o_read_dir path d (omega arith)
              (λ e. refl) h,
          n,
          esta,
          leer_campo_int-campo_int 0 (campo (pegotear nodo d.tabla)) (omega arith),
          leido,
          corte (pegotear nodo d.tabla) (pegotear-SinCeros nodo d.tabla z),
        )
  ]

  -- Over a connection where nothing waits, where the search for the path ends, the names on the disk have
  -- no zero and the listing is below 2 ^ 31 bytes: `hello_readdir` is told, for each node of the table, a
  -- ";", after its name where it is a file or a directory of the directory of the path. For a missing path
  -- it answers -2, and the listing is left waiting on the connection.
  pub hello_readdir-Listado :
      (path : List ℕ) (nodo : ℕ) (d : Disco) (l : List ℕ)
      → IsRuta path
      → dame_nodo_de path d.tabla ≡ ok nodo
      → All (λ f. SinCeros f.nombre_archivo) d.tabla
      → Listado nodo d.tabla l
      → length l < 2 ^ 31
      → hello_readdir string_substring_until
          (operaciones_de ahora resto)
          string_split
          path
          (limpia d)
        ≡ ok (
            if nodo == ningun_nodo
            then (
              record { pendiente = campo_int 0 ++ campo l; por_atender = []; servidor = d },
              (negsuc 1, []),
            )
            else (limpia d, (pos 0, string_split l)))
  hello_readdir-Listado path nodo d l h n z x c =
      let e = Listado-pegotear nodo d.tabla l x in
      rw e at (hello_readdir-pegotear path nodo d h n z (rw e c))
