-- ===== src/Sms.antt =====
-- internal/repository/at_sms.go and internal/usecase/sms.go: text messages. Encoding and
-- segmentation are below this module, the PDU, the guard of submissions, and at_urc.go.
pub mod Segments
pub mod Pdu
pub mod Guard
pub mod Urc
mod Tests
