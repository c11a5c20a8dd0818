-- ===== src/Worker.antt =====
-- The background worker: src/worker.cpp and src/internal/worker.hpp.
pub mod Core
pub mod Tokens
pub mod Processing
pub mod Delivery
pub mod Barrier
pub mod Loop
