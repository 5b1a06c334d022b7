-- ===== src/ExecProcess.antt =====
-- exec_process.go and exec_process_state.go: a process beside the init process of a container.
pub mod Types
pub mod Methods
pub mod Start
pub mod States
pub mod Synced
pub mod Told
pub mod Seen
pub mod Exits
pub mod Starts
pub mod Obeys
pub mod Lifecycle
pub mod Failure
pub mod Requests
pub mod DoubleClose
