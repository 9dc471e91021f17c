-- ===== src/Proc.antt =====
-- A process as the sequence of its commands to the stores (every `await` on Redis or Postgres in
-- src/api, src/worker and src/scheduler is one command), with the ways to execute it: alone,
-- stopped after some commands, and interleaved with other processes.
mod Defs
mod Rules
mod Pool
pub use Defs.*
pub use Rules.*
pub use Pool.*
