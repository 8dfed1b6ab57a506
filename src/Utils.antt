-- ===== src/Utils.antt =====
-- src/n2t/utils.cpp: packet buffers to strings and back, and the SOCKS5 address format.
pub mod Text
pub mod Socks5
pub mod Pbuf
