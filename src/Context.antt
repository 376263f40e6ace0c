-- ===== src/Context.antt =====
-- The context file: which network, and which of its nodes, the commands act on. tee/cli/context.
pub mod Selection
pub mod Config
pub mod Select
pub mod Document
pub mod Write
pub mod Commands
mod Tests
