-- ===== src/Validator.antt =====
-- The checks of src/event_validator.cpp, as src/internal/event_validator.hpp declares them.
pub mod Utf8
pub mod Keys
pub mod Properties
