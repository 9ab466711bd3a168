-- ===== src/Wrapper.antt =====
-- internal/wrapper: the tmux impersonation of a child process (wrapper.go).
pub mod Ends
pub mod Session
pub mod Environ
pub mod Run
pub mod Child
