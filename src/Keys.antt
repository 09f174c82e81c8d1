-- ===== src/Keys.antt =====
-- key-manager/internal/secrets: API keys kept in Secrets, their metadata in ConfigMaps.
pub mod Names
pub mod Unique
pub mod Valid
pub mod Accepted
pub mod Store
pub mod Probe
pub mod Free
pub mod Manager
pub mod Fresh
pub mod Revoked
pub mod Tracked
pub mod Lifecycle
mod Tests
