-- ===== src/Client.antt =====
-- Client::Impl of src/client.cpp.
pub mod State
pub mod Admission
pub mod Sessions
pub mod Track
pub mod Lifecycle
pub mod Create
pub mod Consent
