-- ===== src/At.antt =====
-- internal/repository/at_parser.go, at_ca_enrich.go, at_cmd.go and at_tiered.go: what the program reads
-- out of the modem's responses to AT commands.
pub mod Fields
pub mod Band
pub mod Info
pub mod Cells
pub mod Carriers
pub mod Tech
pub mod Serial
pub mod Client
pub mod Tiered
pub mod Signal
mod Tests
