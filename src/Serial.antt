-- ===== src/Serial.antt =====
-- The serial link to the signal controller: src/traffic_signal_packet_tx.c and
-- src/traffic_signal_packet_rx.c.
mod Tests
pub mod Packet
pub mod Tx
pub mod Rx
pub mod Link
pub mod Requests
pub mod Answer
