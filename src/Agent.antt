-- ===== src/Agent.antt =====
-- internal/agent: the socket protocol (protocol.go) and the agent (agent.go).
pub mod Client
pub mod PathBound
pub mod Retry
pub mod Server
pub mod Exchange
pub mod Socket
pub mod Pty
pub mod Process
