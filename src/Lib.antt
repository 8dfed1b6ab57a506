-- ===== src/Lib.antt =====
-- libn2t turns the packets of a TUN device into TCP connections and UDP datagrams, and carries
-- them over a SOCKS5 proxy. The TCP/IP stack is a copy of lwIP,
-- which this repository changes so that it takes every connection and datagram.
--
-- The parts, and the files that model them:
--   Utils        src/n2t/utils.cpp: packets and lwIP's pbuf chains (Utils/Pbuf), addresses and their
--                SOCKS5 form (Utils/Socks5), the texts of numbers (Utils/Text)
--   UdpSession   src/n2t/udpsession.cpp: one UDP flow through the proxy
--   Socket       src/n2t/socket.cpp: one TCP connection of lwIP behind one-shot handlers
--   TcpSession   src/n2t/tcpsession.cpp: one TCP connection of the application through the proxy
--   N2t          src/n2t/n2t.cpp: the boundary to lwIP, with its queues and its one-shot handlers
--   N2s          src/n2t/n2s.cpp: the owner of the sessions and its five loops
--   Clock        src/custom/sys_arch.c: the clock of lwIP
--   Lwip         the parts of the copy of lwIP that the library stands on: packet buffers (Lwip/Pbuf,
--                src/lwip/src/core/pbuf.c), timeouts (Lwip/Timeouts, src/lwip/src/core/timeouts.c),
--                the checksum of the Internet (Lwip/Checksum, src/lwip/src/core/inet_chksum.c),
--                UDP (Lwip/Udp, src/lwip/src/core/udp.c; Lwip/Addresses for the addresses), the way in
--                and out of IPv4 (Lwip/Ip, src/lwip/src/core/ipv4/ip4.c), the way in and out of IPv6
--                (Lwip/Ip6, src/lwip/src/core/ipv6/ip6.c; Lwip/Dispatch for src/lwip/src/core/ip.c)
--                and the choice of a TCP connection (Lwip/Tcp, src/lwip/src/core/tcp_in.c)
--   Common       lists, tests and steps that the parts share
--   Examples     the theorems at concrete inputs
--
-- How they interact: N2s asks N2t for packets, connections and datagrams; N2t hands a connection
-- to the Socket of a waiting TcpSession, and N2s hands a datagram to the UdpSession of its source.
-- TcpSession is modelled on top of Socket: a callback of lwIP is a step of the socket, and the
-- handlers that it calls are run within the same step.
--
-- Packets cross the boundary as chains of pbufs of lwIP, which Utils/Pbuf/Pool allocates with the
-- model of the pool. N2t/Reception has the set-up of UDP in the constructor of N2T and the packets
-- that `input` takes in from then on, with the callbacks that they bring about. N2t/Arrival
-- follows one packet of the TUN device through `ip_input` and `udp_input` into the queue of N2t,
-- and N2t/Departure and N2t/Departure6 a datagram from `udp_send` through `udp_sendto_if_src` and
-- `ip4_output_if_src` or `ip6_output_if_src` to the device; Lwip/Ip/Datagram and Lwip/Ip6/Datagram
-- say what a well-formed packet is, and Lwip/Ip6/Extension which extension headers are skipped.
--
-- A chain of pbufs is a list, a control block of UDP a number with its members in a store, and the
-- lists of lwIP are lists in the order of their pointers. An assertion of lwIP that fails ends the
-- program, so such a function returns an Option, with `none` for the end.
--
-- A method or a handler of the source is a function that takes the state and returns a Step: the
-- new state, the calls that it makes of lwIP, of Boost.Asio and of handlers, in their order, and
-- whether an exception leaves it. The functions have the names of the source (`in_recv`,
-- `tcp_recv`, `async_accept`); a lambda that is registered as a callback has a name of its own
-- (`on_recv`, `udp_cb`, `on_timer`). `handle` and `perform` put the handlers and the methods of a
-- class under one type of events, and `run` runs any row of them, so that a history stands for the
-- interleavings of the event loop. Each run is over a finite row of events and ends by recursion
-- on it. Only the loops of lwIP have fuel: the search for a free port of UDP, for which 16385
-- rounds are enough since it gives up after 16384; the loop over the timeouts that are due, for
-- which one more than twice their number is enough under the cyclic timers; the loops over the
-- options and the extension headers of IPv6, which have the length of the header and one more than
-- the length of the first pbuf, and each turn passes a byte or eight; and the number of packets
-- that `ip6_reass` puts together within one call of `ip6_input`, which is an argument. Integers of
-- the source keep their width where it shows: `pending_len` and times wrap at 2 ^ 32, lengths in
-- lwIP at 2 ^ 16, bytes at 2 ^ 8. The machine is one whose words have their low byte first.
--
-- Parameters: boost::asio::ip::address (AddressApi, with what it does on the two text formats that
-- the library writes as AddressLaws, which Examples/Addresses shows to hold for a parser), pbuf
-- allocation (PbufApi, which lwIP's pool meets in Utils/Pbuf/Pool), the texts of addresses of lwIP
-- (IpApi), whether the memory of a pbuf starts at an odd address, what the reassembly of fragments
-- returns, the MTU of the way to a destination of IPv6, the handlers of timeouts, the memory that
-- the allocators give (Memory), and the answers of calls that return at once (Net, and the results
-- of `tcp_close` and of `netif::input`).
--
-- Not modelled: the set-up of the interface and of TCP in the constructor of N2T, the logging, the
-- memory that the shared pointers hold (a session that is no longer referenced is absent from the
-- store of N2s), the rest of lwIP, with ICMP, the neighbours of IPv6, the reassembly of fragments and
-- the state machine of TCP, of pbuf.c the copies of whole chains and custom pbufs, of udp.c and
-- ip4.c the choice of an interface, and the example programs. What is left out of lwIP is another
-- project's code behind the calls named above.
pub mod Common
pub mod Clock
pub mod Lwip
pub mod Utils
pub mod UdpSession
pub mod Socket
pub mod TcpSession
pub mod N2t
pub mod N2s
pub mod Examples
