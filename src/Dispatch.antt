-- ===== src/Dispatch.antt =====
-- src/service/fr_dispatch.cpp and include/forgerelay/service.hpp: which requests are let through, and the
-- transfer of an artifact in several answers. `impl.mu` is held all through each of these.
pub mod Guards
pub mod Commands
pub mod Get
mod Tests
