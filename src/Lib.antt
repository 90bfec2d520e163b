-- ===== src/Lib.antt =====
-- BookFiler-Module-SSH: an SSH client on top of libssh2, a server that forwards a TCP port, and a
-- server that tunnels a TCP port through an SSH connection. The three share one way of being
-- configured.
--
-- The parts, and the files that model them:
-- - Settings, Settings/Lookup, Settings/Distinct: the maps of variants by which the client and the
--   servers are configured (include/BookFiler-Module-ssh/Interface.hpp). A map is an association
--   list in the order of iteration.
-- - Platform, Asio: what the program calls and this repository does not hold, as records that the
--   definitions take as parameters: libssh2, the socket of the client, and addresses. A handle is
--   a number, a null pointer is `none`.
-- - Flow: how a method ends (a value, an exception, undefined behaviour, a call of
--   `std::terminate`, or a loop that still runs) and the sequencing of methods on a state.
-- - Client/State and Client/Configure: `ClientState` and the constructor of `ClientImpl`
--   (src/core/ClientState.hpp, src/core/Client.cpp). Client/Object: the members of `ClientImpl`
--   (src/core/Client.hpp). Client/Channel: `DoCreateChannel`, `DoExecute`, `DoCloseChannel`,
--   `writeCommandChannel`, `readCommandChannel`, `readListenChannel`, `Cleanup`, `send` and
--   `read`; Client/Channel/Rounds says what rounds of writes do, and Client/Channel/Writing and
--   Client/Channel/Reading are about `send` and `read`. Client/Loop: `LoopAsync`, `LoopTimer`, `command` and `forwarding`; Client/Loop/Overrun and
--   Client/Loop/Orderly are each about one order in which the handlers of `command` run
--   (Client/Loop/Steps has what they share), Client/Loop/Collect is about what `forwarding` reads.
--   Client/Session: `connect`, `tunnel` and the destructor; Client/Session/Release is about what
--   that frees, and Client/Session/Setup about the calls of `connect` and `tunnel`. The methods
--   keep their names, in another spelling.
-- - Port/State and Port/Configure: `port::ServerState` and the constructor of
--   `ForwardingServerImpl` (src/core/PortForwardingServer.cpp). Port/Server and
--   Port/Server/Running: that object and its `run`. Port/Connection: the coroutines `run` and
--   `run2` of `port::ConnectionImpl` (src/core/PortForwardingServerConnection.cpp) as state
--   machines which the completions of asynchronous operations resume; a composed write puts out its
--   bytes piece by piece. Port/Connection/Relay, Port/Connection/Taken, Port/Connection/Stream and
--   Port/Connection/History
--   are about the bytes that it carries, Port/Connection/Ownership, Port/Connection/Memory and
--   Port/Connection/Bounds about its memory and Port/Connection/Open about its sockets.
--   Port/Listener: `port::ListenerImpl::run` (src/core/PortForwardingServerListener.cpp).
-- - Tunnel/State and Tunnel/Configure: `ssh::ServerState` and the constructor of
--   `TunnelServerImpl` (src/core/TunnelServer.cpp). Tunnel/Server and Tunnel/Server/Running: that
--   object and its `run`. Tunnel/Listener: the round of `ssh::ListenerImpl::run` that makes a
--   client for an accepted connection (src/core/TunnelServerListener.cpp). Tunnel/Listener/Failing
--   is about clients that cannot be connected. Tunnel/Listener/Loop: the whole of `run`.
--   Tunnel/Connection: `runPull` and `runPush` of `ssh::ConnectionImpl`
--   (src/core/TunnelServerConnection.cpp), each as a loop of its own. Tunnel/Connection/Turns: the
--   two on one client, cut where they wait for the local socket and where a read of the channel gave
--   nothing. Tunnel/Connection/Turns/Many: the
--   coroutines of all connections, which share the world (Tunnel/Connection/Turns/Apart is about
--   what a turn leaves alone), and Tunnel/Serving: these and the rounds that open connections, in
--   any order. Tunnel/Relaying: a tunnel from the settings of its server to the bytes that its
--   coroutines carry.
-- - Module, Module/Waiting: `ModuleExport` (src/Module.cpp, src/Module.hpp), its documents, factories, `wait` and
--   `notify`. Module/Waiting/Refine: the specification of the two. Module/Callbacks:
--   `registerSettings`.
-- - Log, Log/Ssh, Log/Port: `logStatus` and `logConnectionStatus` in the namespaces `bookfiler`, `ssh`
--   and `port` (src/bookfiler/Util.cpp, src/core/Util.cpp, src/core/PortForwardingUtil.cpp,
--   src/core/config.hpp), as the texts that they insert into `std::cout`. Log/Call: a call of one of
--   them. Log/Printing: what `Cleanup` and `init` print. Log/File: `readFile`.
-- - Threads: threads that share `globalMutex`, the console, the list of connections and the
--   condition variables of the module, interleaved at every access: they log, append a connection
--   in a listener's `run`, call `wait` and `notify`, or print without the mutex. Threads/Holding: a
--   single thread holds the mutex. Threads/Calls and Threads/Whole: the specification, a sequence of
--   whole calls. Threads/Progress, Threads/Settling and Threads/Finished are about how the threads
--   come to an end, Threads/Notifying about one bad order.
-- - Loader, Loader/Deploy: `loadModule` (include/BookFilerModuleSshLoader.hpp), with the settings
--   manager as a parameter and the signals of the module manager as an argument. Global:
--   `GlobalImpl` (src/core/Util.cpp) and `newSshGlobal`.
-- - Example, Example/Forwarding, Example/Tunneling: the programs
--   src_example/port-forwarding/main.cpp and src_example/ssh-tunnel/main.cpp.
-- - Prelude: shared names, integers, lists and Boolean tests. Tests: a small platform and
--   examples.
--
-- How the parts interact: the listener of the tunnel builds the settings of a client from its own
-- state, makes the client, calls `connect` and `tunnel` on it, and hands it to a connection, whose
-- coroutines call `read` and `send`. The module makes clients and servers. The example programs
-- load the module, make a server by it, run the server and wait. Port forwarding uses no client.
-- All of them log, and the listeners and the module share the mutex of the functions that log.
--
-- Fuel and schedules: the loop of `writeCommandChannel` has fuel for one round more than there are
-- bytes, and a round that does not end the loop writes at least one. The loop of
-- `readCommandChannel` has fuel for one round, and makes no more. The event loop takes the order in
-- which handlers complete from a schedule. The coroutines of a tunnel's connection never end by
-- themselves, so they take any number of rounds, and a run that used them all still runs. A
-- listener is given the rounds that have happened, the coroutines of connections the turns that they
-- take, and the threads that share the mutex the order in which they come to run.
--
-- Integers: a return code of libssh2 is cut to 32 bits where the code stores it in an `int`, a
-- configured port to 16 bits, a counter of bytes to 64 bits and the counter of connections to 32.
--
-- Not modelled: what the methods of clients, servers, listeners and connections log, in their own
-- files (the functions that log are modelled apart); the code under the debug macros; `readFile` of
-- the namespaces `ssh` and `port`, which only calls that of `bookfiler`; a condition variable that
-- wakes by itself; the thread that `connect` starts where it runs the event loop while another
-- method does; threads that run two coroutines of a connection at the same time; the
-- abstract classes of include/BookFiler-Module-ssh/Interface.hpp, which have no code; and the copies
-- of other projects' libraries in third_party.
pub mod Prelude
pub mod Settings
pub mod Asio
pub mod Flow
pub mod Platform
pub mod Client
pub mod Port
pub mod Tunnel
pub mod Module
pub mod Global
pub mod Log
pub mod Threads
pub mod Loader
pub mod Example
pub mod Tests
