-- ===== src/Remote.antt =====
-- internal/remote: the client without a GPU, which sends its directory to a host and runs there.
pub mod Cache
pub mod Walk
pub mod Listing
pub mod Sync
pub mod Mirror
pub mod Arrival
