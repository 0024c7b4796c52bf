-- ===== src/Coro.antt =====
-- core/coro.h, core/impl/coro.hpp, utils/traits.h: coroutines.
pub mod Types
pub mod Frames
pub mod System
pub mod Alive
pub mod Safety
pub mod Delivery
pub mod Lost
mod Tests
pub mod Join
pub mod Handlers
