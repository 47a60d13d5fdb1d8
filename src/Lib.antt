-- ===== src/Lib.antt =====
-- unreliablefs: a FUSE file system that passes every operation on to an underlying file system and
-- injects faults on the way, as a configuration file says.
--
-- The program. The kernel's requests reach the operations of unreliablefs/unreliablefs_ops.c
-- through the table in unreliablefs/unreliablefs.c. Each operation first calls `error_inject` of
-- unreliablefs/unreliablefs_errinj.c with its path and its number. That function locks the mutex of
-- the global configuration. If the path is that of the configuration file, it reads the file again;
-- else it goes through the queue of injections, each of which may draw a random number, be matched
-- against path and operation, and change the result, send a signal or wait. The operation goes on
-- to the underlying file system if the result is 0.
--
-- The files.
--   Base: numbers of C, strings, lists, and Base/Run, the commands of stateful code. A command
--     takes the state and returns a value and the new state, or none where the behaviour of C is
--     undefined: a read past the end of an array, a write behind a buffer, a `free` of a block that
--     is not allocated, a NULL that is followed; or where a thread locks a mutex that it has.
--   Errno: the names of errors. Errno/Linux, Errno/Freebsd, Errno/Openbsd and Errno/Macosx: the
--     arrays of unreliablefs/unreliablefs_errno_linux.h and its siblings; Errno/Header: which of
--     them unreliablefs/unreliablefs_errinj.h includes; Errno/Provided: which they fill.
--   Build: the macros of a build; `fuse_op` of unreliablefs/unreliablefs_ops.h and
--     `fuse_op_name[]` of unreliablefs/unreliablefs_ops.c. Build/Names relates the two.
--   Queue: the data of unreliablefs/unreliablefs_errinj.h. A queue (TAILQ) is a list; each entry and
--     each string carries the number of its block in the heap.
--   System: the record Env of all that the program runs on, and the state: the global `conf` of
--     unreliablefs/unreliablefs.h, `errno`, the heap, the random numbers and the kernel's state.
--     System/Kernel has the system calls, System/Memory the commands for calls and memory,
--     System/Accounts counts who holds a block, System/Linux says what Linux promises of
--     descriptors.
--   Config: `conf_option_handler`, `config_init`, `config_delete`, `errinj_type_by_name` of
--     unreliablefs/unreliablefs_errinj.c, with `atoi` in Config/Atoi. Config/Spec says what a line
--     of the configuration file is for, Config/Handler, Config/Lifecycle, Config/File and
--     Config/Distinct relate the code to it.
--   Errinj: `error_inject`, `op_random_errno` (its `switch` in Errinj/Table), `rand_range`,
--     `is_regex_matched`. Errinj/Total, Errinj/Quiet, Errinj/Delay, Errinj/Random, Errinj/Masked,
--     Errinj/Reload, Errinj/Reread and Errinj/Overrun have the proofs, Errinj/Platforms and
--     Errinj/Unfilled those about the arrays of each system.
--   Threads: `error_inject` as the steps of several threads at the mutex. Threads/Family has sums
--     over threads; Threads/Invariant, Threads/Safety, Threads/Exclusion, Threads/Progress and
--     Threads/Termination have the proofs; Threads/Alone, Threads/History (with
--     Threads/History/Steps) and Threads/Serial relate the steps to the function.
--   Ops: the operations of unreliablefs/unreliablefs_ops.c, in Ops/Paths, Ops/Files, Ops/Xattrs and
--     Ops/Dirs; Ops/Requests and Ops/Dispatch have the table of unreliablefs/unreliablefs.c.
--     Ops/Passthrough is what they are without faults. Ops/Injected, Ops/EndToEnd, Ops/Delayed,
--     Ops/Masked, Ops/Failing and Ops/Removed have the proofs about faults, Ops/Descriptors,
--     Ops/Handles and Ops/Overflow those about the calls, Ops/Keeps, Ops/Answers and Ops/Total
--     those for any requests.
--   Mount: `main` and `is_dir` of unreliablefs/unreliablefs.c, from the start to the end, with the
--     options and `unreliablefs_opt_proc` in Mount/Args; Mount/Run, Mount/Asked and Mount/Path have
--     the proofs.
--   Afs: the messages of unreliablefs/protos/unreliable_afs.proto. Afs/Service is
--     unreliablefs/unreliable_afs_server.cc, Afs/Client is unreliablefs/unreliable_afs_client.cc,
--     Afs/Argument the reading of their arguments with the strings of Afs/Text. Afs/Flag, Afs/Mkdir
--     and Afs/Calls have the proofs.
--   Tests: a small kernel, runs, and the theorems at concrete inputs.
--
-- The choices. Results of C functions are integers without bound, where the numbers of errors and
-- sizes fit; the conversions between `int`, `unsigned` and the 64 bits of `fh` wrap around. Loops
-- are recursions over lists, so that no fuel is needed. Memory may be exhausted at any request. The
-- parameters of Env are the system calls, `rand`, `regcomp`, `regexec`, the pid of the caller, the
-- order in which memory is granted, and what the INI parser finds in a file. A mutex that the
-- thread has already is an error in the functions, which describe one thread; in Threads it makes a
-- thread wait. There a round of the loop and the reading of the file are one step each, since the
-- mutex keeps other threads out of the configuration, and whatever threads do outside of
-- `error_inject` is any change of the kernel, `errno` and the random numbers. Of gRPC, the requests
-- that reach the service and what a call of the stub does are parameters, and so is what
-- `fuse_opt_parse` of FUSE makes of each argument, which may be that it gives up there.
--
-- `RANDOM_ELEMENT` can draw the index behind the end of an array of errors. Nothing is assumed of
-- `rand` to keep it from that: such a run is undefined, and a theorem on runs that may draw an error
-- says of each run either how it ends, or in which round, of which request, it makes this read.
--
-- Not modelled: the messages that are printed; unreliablefs/conf.c, a copy of the library inih,
-- except for its calls of the handler and its result; gRPC itself, and the start of its server; the
-- tests and the exerciser in unreliablefs/tests.
pub mod Base
pub mod Errno
pub mod Afs
pub mod Build
pub mod Queue
pub mod System
pub mod Threads
pub mod Config
pub mod Errinj
pub mod Ops
pub mod Mount
pub mod Tests
