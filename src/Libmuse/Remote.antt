-- ===== src/Libmuse/Remote.antt =====
-- A call of the library over the connection is the operation of MUSE (Libmuse/libmuse.c, Memoria/utils.c).
use linuse_tp_os.Base.{
  ℕ, ◌^◌, ◌≤◌, ◌<◌, ◌≡◌, inl, inr, none, some, List, [], ◌∷◌, ◌++◌, arith, ℤ, pos, pos_part, espera,
  Resultado, ok, fallo, ◌>>=◌, Resultado-cases, desref, Logra, length,
}
use linuse_tp_os.Wire.{int_de, leer, leer_int, campo, campo_int, Conexion, limpia, intercambiar}
use linuse_tp_os.Wire.Bytes.{
  leer_int-int_de, leer_campo-campo, leer_campo_int-campo_int, IsInt, leer_campo_signo-campo_signo,
  leer_int-campo_int, leer_final, leer_int_final, leer_int-campo_int_final, leer_campo_int_final,
  leer_campo_signo_final, como_numero-largo,
}
use linuse_tp_os.Muse.Connection.{
  OperacionesMuse, copiar_respuesta, atender_muse_init, atender_muse_close, atender_muse_alloc,
  atender_muse_free, atender_muse_get, atender_muse_copy, atender_muse_map, atender_muse_sync,
  atender_muse_unmap, despachar_muse, turno_muse,
}
use linuse_tp_os.Libmuse.{
  peticion_de, enviar_muse, leer_resultado, muse_init, muse_close, muse_alloc, muse_free, muse_get,
  muse_cpy, muse_map, muse_sync, muse_unmap,
}

pub data LlamadaMuse : Type 0 where
  inicia cierra : LlamadaMuse
  alloc free unmap : ℕ → LlamadaMuse
  get : List ℕ → ℕ → LlamadaMuse
  cpy : ℕ → List ℕ → LlamadaMuse
  map_de : List ℕ → ℕ → ℕ → LlamadaMuse
  sync : ℕ → ℕ → LlamadaMuse

-- Numbers of 32 bits, and sizes that are not negative as an `int`. MUSE reads four bytes of what it copies.
abbrev pub IsLlamadaMuse : LlamadaMuse → Type 0
IsLlamadaMuse inicia = Unit
IsLlamadaMuse cierra = Unit
IsLlamadaMuse (alloc tam) = tam < 2 ^ 32
IsLlamadaMuse (free dir) = dir < 2 ^ 32
IsLlamadaMuse (unmap dir) = dir < 2 ^ 32
IsLlamadaMuse (get dst src) = (length dst < 2 ^ 31) × (src < 2 ^ 32)
IsLlamadaMuse (cpy dst src) = (dst < 2 ^ 32) × (4 ≤ length src) × (length src < 2 ^ 31)
IsLlamadaMuse (map_de path longitud flags) =
    (length path < 2 ^ 31) × (longitud < 2 ^ 32) × (flags < 2 ^ 32)
IsLlamadaMuse (sync addr len) = (addr < 2 ^ 32) × (len < 2 ^ 32)

-- The answer of a call, 0 where it has none, and what is at `dst` after `muse_get`.
abbrev pub RespuestaMuse : Type 0
RespuestaMuse = ℤ × List ℕ

module _ {S : Type 0} (ops : OperacionesMuse S) (cliente : ℕ) where
  abbrev pub llamar_muse : LlamadaMuse → Conexion S → Resultado (Conexion S × RespuestaMuse)
  llamar_muse inicia c = do (c', z) ← muse_init ops cliente c; ok (c', (z, []))
  llamar_muse cierra c = do c' ← muse_close ops cliente c; ok (c', (pos 0, []))
  llamar_muse (alloc tam) c = do (c', dir) ← muse_alloc ops cliente tam c; ok (c', (pos dir, []))
  llamar_muse (free dir) c = do c' ← muse_free ops cliente dir c; ok (c', (pos 0, []))
  llamar_muse (unmap dir) c = do (c', z) ← muse_unmap ops cliente dir c; ok (c', (z, []))
  llamar_muse (get dst src) c = muse_get ops cliente dst src c
  llamar_muse (cpy dst src) c = do (c', z) ← muse_cpy ops cliente dst src c; ok (c', (z, []))
  llamar_muse (map_de path longitud flags) c = do
    (c', posicion) ← muse_map ops cliente path longitud flags c
    ok (c', (pos posicion, []))
  llamar_muse (sync addr len) c = do (c', z) ← muse_sync ops cliente addr len c; ok (c', (z, []))

  -- The operation of MUSE. `map`, `sync` and `unmap` have none: they change nothing.
  abbrev pub operacion_muse : LlamadaMuse → S → Resultado (S × RespuestaMuse)
  operacion_muse inicia s = do t ← ops.museinit cliente s; ok (t, (pos 0, []))
  operacion_muse cierra s = do t ← ops.museclose cliente s; ok (t, (pos 0, []))
  operacion_muse (alloc tam) s = do (t, dir) ← ops.musemalloc tam cliente s; ok (t, (pos dir, []))
  operacion_muse (free dir) s = do (t, z) ← ops.musefree cliente dir s; ok (t, (pos 0, []))
  operacion_muse (unmap dir) s = ok (s, (pos 0, []))
  operacion_muse (get dst src) s = do
    (t, o) ← ops.museget dst src (length dst) cliente s
    bytes ← desref o
    ok (t, (pos 0, bytes))
  operacion_muse (cpy dst src) s = do
    (t, z) ← ops.musecpy dst src (length src) cliente s
    ok (t, (z, []))
  operacion_muse (map_de path longitud flags) s = ok (s, (pos 4294967295, []))
  operacion_muse (sync addr len) s = ok (s, (pos 0, []))

  -- The answer fits into what is sent: an address, an `int`, or as many bytes as were asked for.
  abbrev pub CabeMuse : LlamadaMuse → S × RespuestaMuse → Type 0
  CabeMuse inicia r = Unit
  CabeMuse cierra r = Unit
  CabeMuse (alloc tam) (t, (z, bs)) = pos_part z < 2 ^ 32
  CabeMuse (free dir) r = Unit
  CabeMuse (unmap dir) r = Unit
  CabeMuse (get dst src) (t, (z, bs)) = length bs ≡ length dst
  CabeMuse (cpy dst src) (t, (z, bs)) = IsInt z
  CabeMuse (map_de path longitud flags) r = Unit
  CabeMuse (sync addr len) r = Unit

  turno_muse-leer :
      (e e1 e2 : List ℕ) (tamanio operacion : ℕ) (s : S)
      → leer_int e ≡ ok (tamanio, e1)
      → leer_int e1 ≡ ok (operacion, e2)
      → turno_muse ops cliente e s ≡ despachar_muse ops cliente operacion e2 s
  unfolding turno_muse leer_int leer
  turno_muse-leer [] e1 e2 tamanio operacion s p q =
      let nada : Resultado (ℕ × List ℕ) = fallo espera in let x : nada ≡ ok (tamanio, e1) = p in cc
  turno_muse-leer (b ∷ bs) e1 e2 tamanio operacion s p q = rw (p, q)

  pub turno_muse-peticion_de :
      (n : ℕ) (e : List ℕ) (s : S)
      → n < 2 ^ 32
      → turno_muse ops cliente (peticion_de n e) s ≡ despachar_muse ops cliente n e s
  unfolding peticion_de
  turno_muse-peticion_de n e s h =
      turno_muse-leer (campo_int n ++ e) (int_de n ++ e) e (length (int_de n)) n s
        (leer_int-campo_int n e) (leer_int-int_de n e h)

  abbrev pub entregar_muse : Resultado (S × RespuestaMuse) → Resultado (Conexion S × RespuestaMuse)
  entregar_muse m = do (t, r) ← m; ok (limpia t, r)

  enviar_muse-despachar :
      (n : ℕ) (e : List ℕ) (s : S)
      → n < 2 ^ 32
      → enviar_muse ops cliente (peticion_de n e) (limpia s) ≡ (
          despachar_muse ops cliente n e s >>= λ (r : S × (List ℕ × List ℕ)).
          ok (record { pendiente = r.1.0; por_atender = r.1.1; servidor = r.0 }))
  unfolding enviar_muse intercambiar
  enviar_muse-despachar n e s h = rw (turno_muse-peticion_de n e s h)

  alloc-operacion :
      (tam : ℕ) (s : S)
      → IsLlamadaMuse (alloc tam)
      → Logra (CabeMuse (alloc tam)) (operacion_muse (alloc tam) s)
      → llamar_muse (alloc tam) (limpia s) ≡ entregar_muse (operacion_muse (alloc tam) s)
  unfolding muse_alloc despachar_muse atender_muse_alloc
  alloc-operacion tam s h k =
      rw (enviar_muse-despachar 3 (campo_int tam) s (omega arith), leer_campo_int_final tam h)
        (elim (Resultado-cases (ops.musemalloc tam cliente s)) [
          | inl ((t, dir), e) ↦
              let l : dir < 2 ^ 32 = rw e at k in
              rw (e, leer_int-campo_int_final dir, leer_int_final dir l)
          | inr (x, e) ↦ rw e
        ])

  free-operacion :
      (dir : ℕ) (s : S)
      → IsLlamadaMuse (free dir)
      → llamar_muse (free dir) (limpia s) ≡ entregar_muse (operacion_muse (free dir) s)
  unfolding muse_free despachar_muse atender_muse_free
  free-operacion dir s h =
      rw
        (
          enviar_muse-despachar 4 (campo_int dir) s (omega arith),
          leer_int-campo_int_final dir,
          leer_int_final dir h,
        )
        (elim (Resultado-cases (ops.musefree cliente dir s)) [
          | inl (a, e) ↦ rw e
          | inr (x, e) ↦ rw e
        ])

  cpy-operacion :
      (dst : ℕ) (src : List ℕ) (s : S)
      → IsLlamadaMuse (cpy dst src)
      → Logra (CabeMuse (cpy dst src)) (operacion_muse (cpy dst src) s)
      → llamar_muse (cpy dst src) (limpia s) ≡ entregar_muse (operacion_muse (cpy dst src) s)
  unfolding muse_cpy despachar_muse atender_muse_copy leer_resultado
  cpy-operacion dst src s h k =
      let (z, p) = como_numero-largo src h.1 in
      rw
        (
          enviar_muse-despachar 6 (campo_int dst ++ (campo src ++ campo_int (length src))) s
              (omega arith),
          leer_campo_int-campo_int dst (campo src ++ campo_int (length src)) h.0,
          leer_campo-campo src (campo_int (length src)) h.2,
          leer_campo_int_final (length src) (omega (arith, h.2)),
          p,
        )
        (elim (Resultado-cases (ops.musecpy dst src (length src) cliente s)) [
          | inl ((t, w), e) ↦ let l : IsInt w = rw e at k in rw (e, leer_campo_signo_final w l)
          | inr (x, e) ↦ rw e
        ])

  get-operacion :
      (dst : List ℕ) (src : ℕ) (s : S)
      → IsLlamadaMuse (get dst src)
      → Logra (CabeMuse (get dst src)) (operacion_muse (get dst src) s)
      → llamar_muse (get dst src) (limpia s) ≡ entregar_muse (operacion_muse (get dst src) s)
  unfolding muse_get despachar_muse atender_muse_get copiar_respuesta leer_resultado
  get-operacion dst src s h k =
      rw
        (
          enviar_muse-despachar 5 (campo dst ++ (campo_int src ++ campo_int (length dst))) s
              (omega arith),
          leer_campo-campo dst (campo_int src ++ campo_int (length dst)) h.0,
          leer_campo_int-campo_int src (campo_int (length dst)) h.1,
          leer_campo_int_final (length dst) (omega (arith, h.0)),
        )
        (elim (Resultado-cases (ops.museget dst src (length dst) cliente s)) [
          | inl ((t, none), e) ↦ rw e
          | inl ((t, some bytes), e) ↦
              let l : length bytes ≡ length dst = rw e at k in
              let leidos : leer (length dst) bytes ≡ ok (bytes, []) = rw l at (leer_final bytes) in
              rw (
                e,
                leer_campo_signo-campo_signo (pos 0) (int_de 4 ++ bytes) (omega arith),
                leer_int-int_de 4 bytes (omega arith),
                leidos,
              )
          | inr (x, e) ↦ rw e
        ])

  -- A call over a connection where nothing waits does what the operation of MUSE does, gives its
  -- answer, and fails where it fails; nothing waits afterwards.
  pub llamar_muse-operacion :
      (l : LlamadaMuse) (s : S)
      → IsLlamadaMuse l
      → Logra (CabeMuse l) (operacion_muse l s)
      → llamar_muse l (limpia s) ≡ entregar_muse (operacion_muse l s)
  unfolding muse_init muse_close muse_map muse_sync muse_unmap leer_resultado despachar_muse
      atender_muse_init atender_muse_close atender_muse_map atender_muse_sync atender_muse_unmap
  llamar_muse-operacion inicia s h k =
      rw (enviar_muse-despachar 1 [] s (omega arith))
        (elim (Resultado-cases (ops.museinit cliente s)) [ inl (a, e) ↦ rw e | inr (x, e) ↦ rw e ])
  llamar_muse-operacion cierra s h k =
      rw (enviar_muse-despachar 2 [] s (omega arith))
        (elim (Resultado-cases (ops.museclose cliente s)) [ inl (a, e) ↦ rw e | inr (x, e) ↦ rw e ])
  llamar_muse-operacion (alloc tam) s h k = alloc-operacion tam s h k
  llamar_muse-operacion (free dir) s h k = free-operacion dir s h
  llamar_muse-operacion (get dst src) s h k = get-operacion dst src s h k
  llamar_muse-operacion (cpy dst src) s h k = cpy-operacion dst src s h k
  llamar_muse-operacion (unmap dir) s h k = rw (
    enviar_muse-despachar 9 (campo_int dir) s (omega arith),
    leer_campo_int_final dir h,
    leer_campo_signo_final (pos 0) (omega arith),
  )
  llamar_muse-operacion (sync addr len) s h k = rw (
    enviar_muse-despachar 8 (campo_int addr ++ campo_int len) s (omega arith),
    leer_campo_int-campo_int addr (campo_int len) h.0,
    leer_campo_int_final len h.1,
    leer_campo_signo_final (pos 0) (omega arith),
  )
  llamar_muse-operacion (map_de path longitud flags) s h k = rw (
    enviar_muse-despachar 7 (campo path ++ (campo_int longitud ++ campo_int flags)) s (omega arith),
    leer_campo-campo path (campo_int longitud ++ campo_int flags) h.0,
    leer_campo_int-campo_int longitud (campo_int flags) h.1,
    leer_campo_int_final flags h.2,
    leer_campo_int_final 4294967295 (omega arith),
  )
