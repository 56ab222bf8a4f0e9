-- ===== src/Serial/Link.antt =====
-- What a frame that one side writes is to the other side (src/traffic_signal_packet_tx.c,
-- src/traffic_signal_packet_rx.c).
mod Buffer
pub mod Accept
pub mod Exchange
