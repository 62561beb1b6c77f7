-- ===== src/Command.antt =====
-- crates/onejudge/src/command.rs: a provider backed by an external command, which is handed one
-- request and answers with one response. The command's processes and serde are parameters.
pub mod Frames
pub mod Call
pub mod Answers
