-- ===== src/Libmuse/Tests.antt =====
-- A call of the library over a server that counts the bytes that it copies.
use linuse_tp_os.Base.{ℕ, ◌+◌, ◌≡◌, none, [], ◌∷◌, arith, pos, negsuc, ok}
use linuse_tp_os.Wire.{limpia}
use linuse_tp_os.Muse.Connection.{OperacionesMuse}
use linuse_tp_os.Libmuse.Remote.{cpy, llamar_muse, llamar_muse-operacion}

abbrev una_memoria : OperacionesMuse ℕ
una_memoria = record {
  museinit = λ cliente s. ok s;
  museclose = λ cliente s. ok 0;
  musemalloc = λ tam cliente s. ok (s + tam, s);
  musefree = λ cliente dir s. ok (s, pos 0);
  museget = λ dst src n cliente s. ok (s, none);
  musecpy = λ dst src n cliente s. ok (s + n, negsuc 0);
}

llamar_muse-operacion_example :
    llamar_muse una_memoria 4 (cpy 16 (1 ∷ 2 ∷ 3 ∷ 4 ∷ 5 ∷ [])) (limpia 10)
    ≡ ok (limpia 15, (negsuc 0, []))
llamar_muse-operacion_example =
    llamar_muse-operacion una_memoria 4 (cpy 16 (1 ∷ 2 ∷ 3 ∷ 4 ∷ 5 ∷ [])) 10
      (omega arith, omega arith, omega arith) (omega arith)
