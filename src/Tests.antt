-- ===== src/Tests.antt =====
-- The theorems at concrete inputs, and runs of the definitions on the inputs of the Go tests.
pub mod World
pub mod Panes
pub mod State
pub mod Arguments
pub mod Keys
pub mod Commands
pub mod Program
pub mod Server
pub mod Exchange
pub mod Agent
pub mod Mock
pub mod Socket
pub mod Typed
pub mod Wrapped
