-- ===== src/Commands.antt =====
-- cmd/gmux: what the commands decide. `Hosts` has the choice of a GPU host, `Choice` what its loop
-- keeps, `Taking` when a card can take a job, `Chosen` the host that is chosen, and `Flags` the parser
-- of flags.
pub mod Hosts
pub mod Choice
pub mod Taking
pub mod Chosen
pub mod Flags
