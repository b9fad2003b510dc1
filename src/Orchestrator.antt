-- ===== src/Orchestrator.antt =====
-- src/orchestrator.c and src/orchestrator.h: services of a specification, their startup order, the
-- monitor thread's restarts and health checks, and the commands that bring a specification up and
-- down. The calls of the container runtime and of the image store are parameters.
pub mod Types
pub mod Topo
pub mod SpecFile
pub mod Validate
pub mod State
pub mod Scan
pub mod Monitor
pub mod Control
mod Tests
