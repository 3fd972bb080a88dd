-- ===== src/Lib.antt =====
-- icbinn: access to the files of another virtual machine by remote procedure calls. A server
-- (libicbinn/server) exports a directory; a client links the library (libicbinn/src), whose
-- functions each make calls of the protocol (libicbinn/rpc/icbinn_prot.x); a command-line client
-- (libicbinn/client) and a FUSE file system (icbinn-fuse) stand on the library.
--
-- Protocol.antt holds the types of icbinn_prot.x, with one constructor of `Request` for each
-- procedure. Kernel.antt holds the system calls that the programs make, as a record `Kernel W` that
-- every definition takes as a parameter; `W` is the state of the machine. What theorems assume of a
-- kernel is in Kernel/Documented.antt (`errno` is positive, no more is read than was asked for) and
-- in Kernel/RegularFile.antt (`pread` and `pwrite` on a regular file).
--
-- Server.antt and its children are libicbinn/server/server.c. Server/State.antt has the state of
-- the process and the helpers, Server/Files.antt, Server/Names.antt and Server/Readdir.antt the
-- handlers `icbinn_prot_*_1_svc` under the name `*_1_svc`, and Server/Dispatch.antt the choice of
-- the handler for a request (`serve`) and a client's requests one after the other (`session`). A
-- handler takes its arguments and the state and gives the result and the new state. READDIR alone
-- can end the process (`exited`, by `fatal`), or access its path buffer out of bounds (`fault`): the
-- end of a call is a `Run`. The static result of READDIR, its flag `init` and the numbers of heap
-- blocks that were allocated and freed for listings are fields of the state. The buffer `readbuf` of
-- PREAD, READLINK and RAND is not in the state: Server/Buffers.antt has a machine of which nothing
-- is known when one of them is to read more than that buffer takes. The other modules of Server hold proofs.
--
-- Client.antt and its children are libicbinn/src: Client/Calls.antt the functions of one call each,
-- Client/Transfer.antt `icbinn_pread`, `icbinn_pwrite` and `icbinn_rand`. The generated stubs are
-- the record `Stubs S` of Client/Stubs.antt, a parameter; `S` is the state of the connection. The
-- transfer loop runs on fuel, for which the number of bytes serves, since each round moves one byte
-- at least.
--
-- Wire.antt and its children put a client and a server together, on the assumption that the
-- connection runs the server's handler once on the arguments of each call and hands its result over
-- (Wire/Link.antt).
--
-- Fuse.antt is icbinn-fuse/src/icbinn-fs.c, operation by operation, with the same names, and
-- Fuse/Table.antt the table `icbinnfs_oper` by which FUSE finds them. The READDIR
-- loop and the loops of the command-line client run as long as the server answers, so they take
-- fuel, and `none` is a loop that has not ended. Shell.antt and its children are libicbinn/client:
-- Shell/Commands.antt the commands, Shell/Parse.antt the table and the parsing of a line. A variable
-- that the code reads before it is set is an argument.
--
-- Client/Connection.antt is libicbinn/src/client.c, the creation and the end of a connection over
-- TCP or V4V, and Client/Closing.antt what it leaves open. A process is the machine and the list of
-- the descriptors that its code has opened and not closed (Kernel/Process.antt).
--
-- Daemon.antt and its children are libicbinn/server/svc_main.c and dbusrpc.c, around the handlers:
-- Daemon/Options.antt the options, Daemon/Listen.antt and Daemon/Accept.antt the sockets and the
-- fork, Daemon/Main.antt `main` in the parent, Daemon/Child.antt `main` in a child,
-- Daemon/Export.antt `get_icbinn_path`, Daemon/Input.antt `check_client_alive` and
-- `svc_input_loop`, and Daemon/Messages.antt libicbinn/server/util.c. The socket calls, the RPC
-- library and the bus are the records `Sockets`, `Registry`, `Transport` and `Bus`. The loops that
-- never end take a number of rounds and give the state after these. The other modules of Daemon
-- hold proofs.
--
-- Shell/Interact.antt and Shell/Main.antt are the rest of libicbinn/client/client.c, from a word of
-- a line to its handler and from the options to the end of the process; Fuse/Start.antt is `main` of
-- icbinn-fs.c, in which `fuse_main` is a parameter. Options come as `getopt` returns them.
-- The other modules of Shell and Fuse hold proofs.
--
-- Wire/FileStore.antt has the specification of a remote file, a sequence of bytes; Wire/Rounds.antt
-- builds a connection from the server's loop and two wires.
--
-- Suite.antt and its children are libicbinn/test/test.c: Suite.antt the tests, Suite/Program.antt
-- their order, the options and the end of the process; the other modules of Suite hold proofs.
-- `qsort` is a parameter, of which Suite/Order.antt states what is documented (`Sorts`).
--
-- Server/Simulation.antt and its children compare the server on two machines, one of which is a
-- view of the other; Wire/Rounds/Every.antt uses this for the wires.
--
-- Integers of C are natural numbers, or `ℤ` where they can be negative. An offset wraps at 2 ^ 64
-- where it is added to, and the arguments of READDIR wrap at 2 ^ 32. A descriptor is not bounded.
--
-- Examples.antt has a machine with a file and a directory and a connection whose state is the
-- server itself; its children apply the theorems to it, to an operating system that grants every
-- call (Examples/Processes.antt) and to a network (Examples/Connections.antt).
--
-- Not modelled: `getopt` and `atoi`, the wording of the messages that the programs print, the
-- version strings and icbinn_canary, the build of the server that does not fork, the line that the
-- FUSE program logs under DEBUG and the Python binding, because they are input and output around the
-- parts above. XDR, the RPC library, the bus and FUSE are not in the repository.
-- The effect of `chroot` on the paths of later calls is the kernel's.
pub mod Common
pub mod Protocol
pub mod Kernel
pub mod Server
pub mod Client
pub mod Wire
pub mod Fuse
pub mod Shell
pub mod Suite
pub mod Examples
pub mod Daemon
