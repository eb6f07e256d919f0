-- ===== src/Transport.antt =====
-- packages/transport/src: the event stream parser is in Sse.
pub mod Sse
