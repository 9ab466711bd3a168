-- ===== src/Tmux.antt =====
-- internal/tmux: the tmux command line.
pub mod Parser
pub mod Format
pub mod Keys
pub mod Commands
