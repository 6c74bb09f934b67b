-- ===== src/SacCli/Directories.antt =====
-- A directory that FUSE makes: `hello_mkdir` of Sac-Cli/sacCli.c down to the table of nodes that
-- `o_mkdir` of Sac-Server/operaciones.c writes to.
use linuse_tp_os.Base.{ℕ, ◌≡◌, ◌⊎◌, List, ℤ, pos}
use linuse_tp_os.Wire.{Conexion, limpia}
use linuse_tp_os.Sac.Model.{Disco}
use linuse_tp_os.Sac.Nodes.Creation.{Creado}

-- The directory is on the disk and the answer is 0, or the disk is as it was and the answer is `errno`;
-- nothing waits on the connection.
abbrev pub MkdirRemoto : ℤ → List ℕ → Disco → Conexion Disco × ℤ → Type 0
MkdirRemoto errno path d (c, z) =
    ((Creado path d c.servidor × (z ≡ pos 0)) ⊎ ((c.servidor ≡ d) × (z ≡ errno)))
    × (c ≡ limpia c.servidor)
