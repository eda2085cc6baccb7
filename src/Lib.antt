-- ===== src/Lib.antt =====
-- ipbench: the benchmarking daemon (ipbench2/src/ipbenchd.py) and its controller
-- (ipbench2/src/ipbench.py).
--
-- The controller connects to a daemon on each test machine. Over a connection it sends the commands
-- HELLO, LOAD and SETUP, each of which the daemon answers with a line of a code, a name and a
-- message; then it sends START and reads the test's result. The daemon forks a process for each
-- connection, which runs a state machine (LISTEN, SETUP, RUN, MARSHALL, ERROR, ABORT, RESET); the
-- processes share a mapping with the id of the one that runs a test. The test itself is a plugin.
--
-- Python. The part of the language and its library that the program uses: `str` and `bytes` as
-- lists of code points and bytes (Python.Text), `str` and `int` of numbers (Python.Number), UTF-8
-- with strict and ignoring decoders (Python.Codec), a call's value or exception (Python.Outcome),
-- code that changes a state and may raise (Python.Exec), with its rules of reasoning below it
-- (Ensures, Leaves, Stays).
--
-- Daemon. Daemon.TestStatus is the class `TestStatus`; Daemon.Status is `str_status`;
-- Daemon.Machine is the class `StateMachine`; Daemon.Listen, Setup, Run and Finish are the
-- handlers `listen`, `setup`, `run`, and `marshall`, `reset`, `error`, `abort` of
-- `IpbenchClient`; Daemon.Target is `run` of `IpbenchTarget`, and Daemon.Target.System the
-- processes of its session, and Daemon.Processes the process table of a server in client mode;
-- Daemon.Common is `parse_common_opts` and the heads of their loops; Daemon.Commands is their
-- patterns; Daemon.Handle is `IpbenchRequestHandler.handle`.
-- Daemon.World is what a process works on, and Daemon.Invariant what holds in each state.
-- Daemon.Server is a server in client mode with all its connections (IpbenchClientServer, the
-- constructor of `IpbenchClient`, and `handle`): its state is the shared status, the process
-- table and a session for each process, and its operations are the arrival of a connection (with
-- the greeting and the constructor), a turn of a process and a wait for a process. Below it,
-- Daemon.Server.Exclusion and Undisturbed are about controllers that begin as they should, and
-- Daemon.Server.Readable about whatever peers.
--
-- Daemon.Main is the command line of `main`, Daemon.TestStatus.Register what the class `TestStatus`
-- promises.
--
-- Controller. Controller.ReturnCode is `_parse_return_code`, Controller.Socket the socket with
-- `send_command`, Controller.Client is `connect`, `setup`, `start` and `close` of
-- `IpbenchTestClient`, and Controller.Unmarshall is its `unmarshall`; Controller.Target is `setup`
-- and `stop` of `IpbenchTestTarget`.
--
-- Controller.Options is the command line of `main`, Controller.Config its lists of clients and
-- targets, from the configuration file and the command line; Controller.Bench is what it works on,
-- Controller.Poll its `select` loop, and Controller.Main the rest of it.
--
-- Scripts.Ununmarshall is helpers/scripts/ununmarshall.py, a filter for the log of a run.
--
-- Protocol holds the theorems about both programs at once (Protocol.Session and Protocol.Target the
-- sessions, Protocol.Session.Interleaved a session among others, Protocol.Exchange and
-- Protocol.Target.Exchange both ends of one), Tests the runs at concrete data.
--
-- Parameters. The plugin wrapper (a Python extension module) is the record `Shunt`: a state and
-- five calls, which may raise. The process table is the record `Os`: what a signal does to it, or
-- that there is no such process. The controller's `unmarshall` takes the test module's function
-- and the pieces in which the bytes arrive, and `connect` the outcome of each attempt to open a
-- connection. lxml is the record `Xml`, the controller's test modules are the record `Modules`,
-- and the answers of `select` are a list of rounds.
--
-- Bounds. A handler's loop goes on only after a reply was sent, and the world says how many writes
-- the socket still takes, so the number of rounds is one more than those writes; the loop of
-- `parse_common_opts` recurses on the lines that are left. A session calls at most five handlers,
-- and the machine is given six rounds. The controller's loop for the content takes rounds as an
-- argument. A loop that runs out of rounds gives the outcome `stalled`, which is no outcome of
-- Python.
--
-- Simplifications. `\w`, decimal digits and `upper` are those of ASCII. `int` has no limit on the
-- number of digits. A process that sends itself SIGINT gets KeyboardInterrupt at once. The
-- controller's `socket.send` takes all that it is given and does not raise. Debug output is left out.
--
-- Connections at the same time. In Daemon.Server a turn of a process is one handler with all that
-- it reads, so that no other process goes on between what a handler asks of the status and what
-- it writes there; Daemon.Listen.Overlap has HELLO of two sessions in smaller steps. The ids of
-- its processes are consecutive and are not used again; a process that has ended can be signalled
-- until it is waited for, and SIGINT and SIGKILL end a process that runs (Daemon.Processes);
-- `abort` sends the one right behind the other. Daemon.Handle is one session whose status and
-- process table nothing else changes.
--
-- The controller's `main` takes the options of the command line as they occur, with their values.
--
-- Target mode. The parent and the child that `run` forks share the connection, the status and the
-- process table, and each has its own copy of the plugin's state. They go on in turns, in any
-- order: a turn is one handler, or what one side of the fork does. SHUNT.start() of a target is a C
-- call, which the parent is in from the fork on: it fails at once, or it goes on until SIGUSR1, whose
-- handler in the wrapper stops the test, and then returns (the plugin's `start` says which of the two);
-- Python acts on a SIGINT only when the call is over. A process that ends through socketserver, by
-- RESET or by an exception, shuts down the connection for writing, so that no process can write to it
-- any more; one that ends by os._exit does not. A process that has ended can be signalled until it is
-- waited for; SIGKILL ends a process at once. The constructor `IpbenchTarget.__init__` imports the
-- plugin wrapper.
--
-- Not modelled: socketserver, which forks a process for each connection, and `handle_error`, which
-- raises again what it was called for; a server in target mode with several connections; the C
-- plugins and their wrapper.

pub mod Prelude
pub mod Python
pub mod Daemon
pub mod Controller
pub mod Protocol
pub mod Scripts
pub mod Tests
