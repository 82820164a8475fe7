-- ===== src/Lib.antt =====
-- container-web-tty: a server that opens terminals of containers in a browser, written in Go.
--
-- The program reads its flags (main.go), chooses a backend (container/container.go) and starts an
-- HTTP server (route/), a gRPC server (proxy/) or both (run.go). A backend talks to Docker, to
-- Kubernetes, or over gRPC to other instances of the program, and keeps the containers that it knows
-- in a cache (types/containers.go). The HTTP server turns a container's ID into an exec ID, opens a
-- terminal at the backend for its websocket, keeps the master of that terminal, forks it for others
-- who open the same exec ID (types/tty.go), counts the connections, and closes the idle ones. It also
-- shows logs and runs container actions. The gRPC server offers its backend to other instances.
--
-- Files, in the order of the program's layers:
--   Base.antt           texts, lists, maps and integers of Go over the native numbers
--   Config.antt         config/config.go
--   Util/               util/id.go (Id), and the paths and names of util/util.go (Env)
--   Types.antt          types/types.go; Types/Containers: types/containers.go, the methods of
--                       `Containers`; Types/Tty: types/tty.go, `MasterTTY`, `SlaveTTY`, `mutexWriter`
--   Backend.antt        container/container.go, `Cli` and `NewCliBackend`
--   Docker/             container/docker/docker.go (Connect: `NewCli`, Watch: its goroutine, Client,
--                       Requests, Options), slave.go (Tty) and log_parser.go (LogParser)
--   Kube/               container/kube/kubectl.go (Connect: `NewCli`, Client), and of tty.go the
--                       pipes (Tty), the sizes (Sizes) and the end of a terminal (Exit)
--   Grpc/               container/grpc/grpc.go (Connect: `NewCli` and `Close`, Client, Pipe: the
--                       stream of `Logs`), grpc_tty.go (Tty) and dialer.go (Dialer, Dialer/Race)
--   Terminal.antt       container/docker/slave.go, container/grpc/grpc_tty.go and
--                       container/kube/tty.go, what their terminals have in common
--   Proxy/              proxy/pb/api.proto (Messages), util/util.go's conversions (Convert), and
--                       proxy/server.go: the handlers (Service) and their loops (Streams);
--                       proxy/proxy.go (Run)
--   Route/              route/handler_atomic.go (Counter), route/handler.go (Init, Title, Actions,
--                       Pages), route/route.go, id.go and ws.go (Server; Origin: `New`), the routes
--                       of `Run` (Pages) and its life (Run), the page of ws.go (Index),
--                       route/exec.go and share.go (Exec, with Exec/Handler, Exec/Join and Exec/Whole
--                       for whole requests and Exec/Idle for the idle time), route/log.go (Logs,
--                       Logs/Handler), route/ws_wrapper.go (Wrappers), and
--                       route/slave_wrapper.go with util/rwc.go (Slave)
--   Audit.antt          audit/audit.go, `LogTo`
--   Main.antt           main.go and run.go; Main/Flags: the table of flags; Main/Signals:
--                       `WaitSignals` of util/util.go; Main/Program: the program with its servers,
--                       from its start to its exit
--   Samples.antt        data and a backend for the tests
-- The children of a module hold its theorems and its tests; Main/Flags, Main/Signals, Main/Program,
-- Grpc/Dialer/Race, Route/Exec/Sessions, Route/Exec/Handler, Route/Exec/Join, Route/Exec/Whole,
-- Route/Exec/Idle and Route/Logs/Handler are models too.
--
-- State and steps. A method that changes an object is a function to the new state. A method that
-- holds a mutex for its whole body is one step. `Cli` is a record of a backend's methods over its
-- state, and the handlers of proxy/ and route/ are written over any such record. What runs beside
-- other goroutines is a step relation: the handlers of route/exec.go in Route/Exec/Sessions, the
-- activity channel in Terminal, the terminal in Kube/Tty, Kube/Sizes and Kube/Exit, a dial in
-- Grpc/Dialer/Race, the servers in Route/Run and Proxy/Run, and the program that is made of them in
-- Main/Program, where a signal ends the contexts that both servers watch. In Route/Run what `Run` does
-- by itself, what the handlers do, and what comes from outside are three relations. Loops over a stream
-- are functions of the list of its results, and what reaches the Docker backend is a list of
-- happenings in Docker/Watch. A panic of Go is a value of the result. A map is a list with distinct
-- keys; Types/Containers/Abstract has the quotient that forgets its order.
--
-- Numbers. Lengths, times and counts are native numbers, an `int` of the configuration is an
-- integer, and a `time.Duration` saturates at 2 ^ 63 - 1. The lengths of the log parser are below
-- 2 ^ 32 and do not wrap. A terminal's size wraps at 2 ^ 16 on Kubernetes and at 2 ^ 32 over gRPC. The
-- parser's loop runs on fuel of one unit for each byte and one more; each round moves on by at least
-- eight bytes. `show_nat` has fuel of one unit more than the number. The reads of a websocket in
-- Route/Wrappers have fuel for one read of each message.
--
-- Parameters. What the program gets from Docker's client, the API server of Kubernetes, a gRPC
-- connection, the operating system, the JSON, URL and duration parsers and the environment parser is
-- an argument: a record of functions for one call, or a function. The functions of packages strings,
-- path and strconv are in Base, by their documentation.
--
-- Not modelled: the terminal protocol (third-part/gotty/webtty, a copy of a library), the generated
-- route/asset and proxy/pb/api.pb.go, the templates of the pages, client-go's
-- requests to the API server, how urfave/cli reads the command line, logging, and the browser's code
-- in js/.
pub mod Base
pub mod Samples
pub mod Config
pub mod Types
pub mod Util
pub mod Backend
pub mod Terminal
pub mod Docker
pub mod Proxy
pub mod Kube
pub mod Grpc
pub mod Route
pub mod Audit
pub mod Main
