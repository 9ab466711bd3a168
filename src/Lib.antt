-- ===== src/Lib.antt =====
-- shimux makes a program believe that it runs inside tmux while it runs in the terminal Ghostty.
-- This development models the Go prototype, poc/poc001-go: the parts below, and what they owe each
-- other.
--
-- The parts. `cmd/shimux/main.go` (Cli) is one program with two names. As `shimux` it starts a child
-- through the wrapper, `internal/wrapper/wrapper.go` (Wrapper): a temporary directory with a link
-- `tmux` to the program itself is put in front of PATH. As `tmux` it parses the arguments,
-- `internal/tmux/parser.go` (Tmux.Parser), and runs the command, `internal/tmux/commands.go`
-- (Tmux.Commands), which drives the terminal through a controller (`internal/ghostty`: Ghostty,
-- Ghostty.KeySim), keeps the panes (`internal/pane/manager.go`: Pane, and Pane.State for its state
-- file), expands formats and key names (`internal/tmux/format.go` and `keys.go`: Tmux.Format,
-- Tmux.Keys) and sends text to the agent of a pane over a socket (`internal/agent/protocol.go`:
-- Agent.Client). `cmd/shimux-agent/main.go` (AgentCli) is the program in each pane: it runs an
-- agent, `internal/agent/agent.go` (Agent.Process), which removes a stale socket (Agent.Socket),
-- opens a pair of terminals (Agent.Pty), starts a shell on it and serves the socket (Agent.Server);
-- what a client sends is written to the shell's terminal. Agent.Exchange joins the client and the
-- server of one agent, which listens at one path, and Tmux.Commands.Typed and Cli.Typed a whole
-- `tmux send-keys` with them. Ghostty.Mock is the recording controller of the tests
-- (`internal/ghostty/ghosttytest/mock.go`). All these paths are under poc/poc001-go.
--
-- How it is modelled. A string is a list of bytes, an `int` is an integer of 64 bits whose one
-- operation, the increment of the counter of IDs, wraps around. A function with effects takes a
-- world of any type and returns it; the calls of the system (files, sockets, the clock, the child)
-- are fields of the records `Net`, `Host`, `System`, `Process`, `Conn`, `Listening`, `Sockets`,
-- `Terminals` and `Machine`. A handler takes the state of the process, which is the manager, the two
-- output streams and the world, and returns the exit code, the error and the next state. A `map` is
-- an association list; the order in which Go visits one is a function or an argument of its own. The
-- methods of the manager hold a mutex and are one step each.
--
-- The goroutines of the server run in any order: Agent.Server.Goroutines is a step relation on
-- counts of the goroutines at each place, since connections are alike. The steps of the server
-- itself are kept apart from the return of `handleConn`, since nothing bounds the handler that it
-- calls. A call of `Close` is a step that closes the listener and a step that returns. What the
-- agent holds (files, shell, listener) is a function of the world, Agent.Process.Held, and the
-- documented effect of each call on it is a hypothesis.
--
-- Pane.Panes is the abstract view of the manager, a list in the order of registration, and
-- Pane.Refines relates the two. Tmux.Format.Expansion gives a meaning to templates with no search in
-- it, Tmux.Parser.Global a grammar of command lines.
--
-- Fuel. `expand_loop` takes one unit for each round and starts with one more than the length of the
-- template; each round that goes on consumes at least three bytes. The digits of `n` take `n + 1`
-- units. The retries of `SendKeys` count down from 10. All other loops recurse on a list.
--
-- Not modelled: the bytes that the agent copies between the terminals, and the texts of the JSON
-- documents, which are left to writers and readers that are parameters. The deadline of a connection
-- shows as an error of one of its calls, the end of a context in the result of the shell. `Addr` of
-- the server returns the listener's address. What the goroutines of an agent do while `Run` waits
-- for the shell is part of that call's effect on the world. The prototype poc002, in another
-- language, is left out.
pub mod Base
pub mod Pane
pub mod Ghostty
pub mod Agent
pub mod Tmux
pub mod Wrapper
pub mod Cli
pub mod Tests
pub mod AgentCli
