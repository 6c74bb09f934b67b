-- ===== src/Lib.antt =====
-- Models of the servers of linuse, an operating system in user space.
--
-- The parts. SUSE (Planificador/SUSE/SUSE.c) plans the threads of the programs that connect to it: it
-- admits them from New into Ready up to a degree of multiprogramming, chooses by the shortest estimated
-- burst which one executes, and keeps the semaphores that programs share. Programs reach it through
-- hilolay (Planificador/Hilolay/hilolay), a library of user level threads. MUSE (Memoria/muse.c, behind
-- the requests of Memoria/utils.c) gives programs memory in segments of pages, which live in frames or in
-- a swap file; programs reach it through libmuse (Libmuse/libmuse.c). The file server (Sac-Server) keeps
-- a disk of blocks, and the FUSE client (Sac-Cli/sacCli.c) sends it the calls of FUSE. Clients and
-- servers share no state: they exchange bytes over sockets.
--
-- The bytes. Wire has the integers and the fields that the messages are made of, and a connection: what
-- waits to be read on either side, and the state of the server. Wire/Bytes has what a reader takes back.
--
-- SUSE. Suse/Model holds `hilo`, `semaforo`, `programa` and the global variables, as the record Suse;
-- Suse/Program has iniciarSUSE, crearPrograma, limpiarEstructuras and the branch of iniciarConexion for
-- a client that left; Suse/Ready has crearHilo, planificarReady and pasarAReady; Suse/Schedule has
-- siguienteAEjecutar with calcularSiguienteHilo, replanificarHilos and recalcularEstimacion;
-- Suse/Semaphore has sem_suse_wait and sem_suse_signal; Suse/Thread has realizarJoin and realizarClose;
-- Suse/Metrics has tomarMetricas. Suse/Steps makes of them one relation, Paso, whose steps may come in
-- any order: the requests, the two halves of a round of planificarReady, the wake-up of a program that
-- waited on its mutex, and the metrics. Suse/Requests has the `switch` of iniciarConexion over the
-- requests, Suse/Decoding what is read and sent for them, and Suse/Runs the runs of Paso. Suse/Invariant
-- and Suse/Count have lemmas on all of these, a child for each group of operations, Suse/Steps/Values is
-- about the semaphores along the steps, and Suse/Tests runs the server on concrete requests.
--
-- hilolay. Hilolay holds the table of control blocks of hilolay_internal.c and the operations on it, over
-- the record HilolayOperations, which is `struct hilolay_operations`; Hilolay/Requests fills that record
-- as implementaciones.c does, over a socket to SUSE. Hilolay/Table and Hilolay/Calls are about the table,
-- Hilolay/Delivery about the socket; Hilolay/Tests has concrete calls.
--
-- MUSE. Muse/Model has the structures of Memoria/muse.h; Muse/Frames the bitmap of frames and the bitmap
-- of swap; Muse/Clock clockModificado; Muse/Swap asignarUnFrame, llevarASwapUnaPagina,
-- traerAMemoriaPrincipal; Muse/Start arrancarMemoria; Muse/Segments the searches for the segment of an
-- address and for a free piece of a segment; Muse/Heap the pages and the pieces of a segment:
-- obtenerPosicionMemoriaPagina, asignarNuevaPagina, ubicarMetadataYHeapLista and the assignment of the
-- first and of the last page; Muse/Alloc crearSegmento, extenderSegmento, esExtendible and musemalloc;
-- Muse/Free musefree, unificarHeaders, eliminarPaginasLibresSegmento, musemap, muse_unmap and museclose;
-- Muse/Connection the `atenderMuse` functions of Memoria/utils.c over the record OperacionesMuse;
-- Muse/Tests concrete frames and segments. Libmuse has the calls of libmuse.c, Libmuse/Remote compares
-- them with the operations of MUSE, and Libmuse/Tests makes one.
--
-- The file server. Sac/Blocks has the bitmap of blocks of Sac-Server/estructuras.c, positions in a
-- file and the addition of blocks to it; Sac/Paths has dividirRuta and dameNodoDe of the same file;
-- Sac/Nodes has o_mkdir, o_create, o_rmdir2 and o_rename of Sac-Server/operaciones.c, Sac/Freeing
-- eliminarNodos and o_unlink, Sac/Growing darleEspacioNuevo, Sac/Directories o_rmdir and
-- eliminarRecursivamente, Sac/Attributes o_getAttr, o_readDir, o_open and the record of these;
-- Sac/Connection the `tomarPeticion` functions of Sac-Server/conexionServer.c over the record
-- Operaciones; Sac/Tests a small disk. SacCli has the callbacks of Sac-Cli/sacCli.c; SacCli/Remote,
-- SacCli/Calls, SacCli/Reading, SacCli/Attributes, SacCli/Listing and SacCli/Directories compare them
-- with the operations of the server, and SacCli/Tests has concrete calls.
--
-- How code becomes definitions. An operation is a function from the state to a Resultado: `fallo` is
-- a NULL pointer that is dereferenced, an exit, an index outside an array, or a semaphore that makes
-- the calling thread wait. A dictionary whose keys are printed numbers is an association list keyed
-- by the numbers. An operation that runs under the semaphores of the code is one step, and so is
-- siguienteAEjecutar, which releases them between its parts. The clock is a sequence of readings, of
-- which each call of getMicrotime takes the next. `int` times wrap at 32 bits and the differences of
-- times at 64. A loop over a list is recursion on the list, and a loop over indices recursion on how
-- many are left. Three have fuel: dameNodoDe one more than the length of its path; darleEspacioNuevo
-- one more than the free blocks of the disk, of which each turn takes one (Sac/Growing/Fuel); and
-- eliminarRecursivamente one more than the nodes of the table, for calls that go deeper meet a
-- directory that is below itself, and do not end. A segment of MUSE is at an index of a table, or in
-- no table while crearSegmento builds it.
--
-- An `int`, a `size_t` and a pointer have 32 bits, as in the binaries of the repository. A `read` gives
-- all the bytes that it asks for, or waits. A name or a path is the list of its bytes.
--
-- Parameters. The estimates are machine reals, of which the code uses a comparison, a strict comparison
-- and the mixture with ALPHA_SJF: the record Reales, with the laws IsReales where no estimate is NaN.
-- The sort of the commons library is a function of which IsOrdenar says that it permutes and orders, and
-- its `string_substring_until` one of which IsCorte says that a string cut at its length stays as it is.
-- Its `string_split`, what `strlen` makes of a buffer that need not end, and `errno` are arguments.
--
-- Not modelled. The set-up and the select loops of sockets, configuration files, log files and the passes
-- of the metrics that only print; locks around one operation; contexts and stacks of threads; the bytes of
-- frames and of swap, and with them museget, musecpy and musesync; the functions of Memoria/muse.c that
-- nothing calls and that are not named above; the operations of the file server that are not named
-- above; the test programs.
pub mod Base
pub mod Wire
pub mod Suse
pub mod Hilolay
pub mod Muse
pub mod Libmuse
pub mod Sac
pub mod SacCli
