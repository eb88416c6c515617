-- ===== src/Broadcaster.antt =====
-- pkg/broadcaster: what the subscribers of one stream are sent.
mod Channels
mod Delivered
mod Examples
