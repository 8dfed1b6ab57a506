-- ===== src/Lwip.antt =====
-- Parts of the copy of lwIP in src/lwip on which the library stands, with the options of
-- src/custom/lwipopts.h. Assertions are on: a failed `LWIP_ASSERT` or `LWIP_ERROR` aborts the
-- program, which the functions here return as `none`.
pub mod Pbuf
pub mod Timeouts
pub mod Addresses
pub mod Udp
pub mod Tcp
pub mod Checksum
pub mod Ip
pub mod Ip6
pub mod Dispatch
