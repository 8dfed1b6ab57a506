-- ===== src/Examples.antt =====
-- The theorems at concrete inputs, and an address parser to apply them to.
mod Addresses
mod Data
mod Codec
mod Packets
mod Timers
mod Datagrams
mod Bytes
mod Ip
mod Ip6
mod Segments
mod Udp
mod Tcp
mod Sockets
mod Boundary
