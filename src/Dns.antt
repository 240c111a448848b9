-- ===== src/Dns.antt =====
-- The captive DNS server, main/dns_server.c. A packet is the list of its bytes. Sockets, and what the
-- Wi-Fi station knows of its DNS server, are the record `Net`.
pub mod Packet
pub mod Cache
pub mod Server
