-- ===== src/Startup.antt =====
-- SharedHeap.cpp: what the library reads from its environment when it starts.
pub mod Environment
pub mod EnvironmentLaws
pub mod CallStack
pub mod CallStackLaws
