-- ===== src/Sac/Tests/Growing.antt =====
-- A file that does not grow, although its last block has room.
use linuse_tp_os.Base.{◌%◌, ◌<◌, ◌≡◌, ◌⊎◌, [], ◌∷◌, arith, ok, Logra}
use linuse_tp_os.Sac.Model.{Archivo}
use linuse_tp_os.Sac.Tests.{disco, un_nodo}
use linuse_tp_os.Sac.Blocks.{hecho, sin_espacio}
use linuse_tp_os.Sac.Growing.{espacio_en_bloque, agrandar, darle_espacio_nuevo}
use linuse_tp_os.Sac.Growing.Refusal.{darle_espacio_nuevo-rechaza}

-- Its second block has 3192 bytes left.
abbrev mediano : Archivo
mediano = record (un_nodo 1 (98 ∷ []) 0) { tamanio_archivo = 5000 }

darle_espacio_nuevo-rechaza_example :
    ((100 < espacio_en_bloque mediano)
      × (darle_espacio_nuevo mediano 100 disco ≡ ok (mediano, disco, sin_espacio)))
    ⊎ ((100 ≡ espacio_en_bloque mediano)
        × (darle_espacio_nuevo mediano 100 disco ≡ ok (agrandar 100 mediano, disco, hecho)))
    ⊎ ((espacio_en_bloque mediano < 100)
        × ((100 % 4096 < espacio_en_bloque mediano)
            ⊎ Logra
                (λ r. r ≡ (mediano, disco, sin_espacio))
                (darle_espacio_nuevo mediano 100 disco)))
darle_espacio_nuevo-rechaza_example =
    darle_espacio_nuevo-rechaza mediano 100 disco (omega arith) (omega arith)
