-- ===== src/Lib.antt =====
-- A model of the user-space router in router/src and router/include, and what it does.
--
-- The program receives Ethernet frames on its interfaces. `ethernet_handle` takes a frame apart and
-- records the sender's hardware address; ARP goes to `arp_handle`, IPv4 to `ipv4_handle`, which
-- bridges within the LAN, translates addresses and ports on the way to the WAN (`napt_out_handle`)
-- and back (`napt_inc_handle`), and sends with `send_ipv4`. A packet whose next hop has no known
-- hardware address waits in the delta list of the timer until an ARP answer or the second time-out.
-- Beside this a DHCP server hands out the addresses of the LAN. `main` sets the interfaces and the
-- WAN up from the addresses that the system reports; a driver and a stub replace the sockets by
-- files.
--
-- The files, and what they model:
--   Prelude, Prelude/*: lists as arrays, memory as bytes, 16-bit words, the tests of C.
--   Address: router/include/structs.h and the address functions of router/src/utils.c.
--   Interfaces: router/src/interfaces.c, the interfaces, the WAN, and the choice of a route.
--   Devices: router/src/devices.c, the growing array of addresses and hardware addresses.
--   Hashmap: router/src/hashmap.c down to the bytes of its block: tags, keys, values, and its mutex.
--   Checksum: `calculate_checksum` of router/src/outgoing.c.
--   State: the globals that the handlers share, as one record; `sent` lists the frames written to
--     the sockets and `dropped` the packets that the timer freed.
--   Arp: `arp_hdr_t` and `send_arp`. Outgoing: `send_ipv4` of router/src/outgoing.c.
--   Timer: router/src/timer.c, the delta list. Resolve: `timer_update_packets` and `arp_handle`.
--   Napt: router/src/ipv4.c. Ethernet: router/src/ethernet.c.
--   Dhcp: router/src/dhcp.c; Dhcp/Serve is the loop of `dhcp_server_start`.
--   Run: runs of frames and time-outs as a step relation, and what stays true in them.
--   Start: `main` and `thread_start` of router/src/main.c. `configure` is its loop over
--     the reported addresses, `boot` what happens before the threads.
--   Stub: router/src/stub.c, router/include/stub.h and router/src/testcases.c.
--   Driver: `driver_main` of router/src/driver.c.
--   Sample: data of the tests. The children of a module prove its theorems, `Tests` applies them.
--
-- Conventions. An operation on the shared state takes the `Router` and returns the new one. `none` is
-- a step that C leaves undefined (the use of a variable that was never set, a write behind the
-- driver's buffer) or one that never returns (a lock of a locked mutex, a search that goes round for
-- ever). Packets are lists of bytes in the memory order of the little-endian host, and a 16-bit field
-- is the number that the host reads. A read outside of a memory block gives 0 and a write there does
-- nothing. The handlers rewrite a packet where it lies: `ipv4_handle` returns it, and `frame_after` is
-- what the loops of `main` and of the driver find in their buffer afterwards. What the program takes
-- from outside is a parameter: the values of `rand()` (`rands`), the nanoseconds that `timer_gettime`
-- gives (`left`), the clock (`now`), what `malloc` and `realloc` leave in fresh memory (`fresh`), the
-- result of `pthread_mutex_init`, the hash function of a table, what
-- `getifaddrs` reports, the frames and messages that arrive, and the files.
--
-- Fuel. The walks over a hash table have one round for each slot; `hashmap_insert` and `hashmap_grow`
-- call one another, and 4 levels (`insert_depth`) are enough, since an insertion into a table that
-- has just grown does not grow it. The loop of `timer_handler` has one round more than nodes: each
-- round takes a node away whose time is up and appends none such. A carry is folded at most twice,
-- and 3 rounds are given. A message of the DHCP server's buffer of 1024 bytes has at most 512 options
-- of two bytes. The driver's loop has one round for each byte of its file, of which a round reads 16
-- at least, and its wait has two for each node, which asks again once before it is given up.
--
-- Not modelled: the sockets themselves, creating threads, signals, and what is printed; and
-- WiFi (router/src/wifi.c), whose handler tests a variable that it never sets. Handlers run to their
-- end one after the other: the mutex of a hash table is modelled, since handlers leave it in states
-- that later ones meet, but not the interleaving of threads.
pub mod Prelude
pub mod Address
pub mod Interfaces
pub mod Devices
pub mod Hashmap
pub mod Checksum
pub mod State
pub mod Run
pub mod Start
pub mod Stub
pub mod Driver
pub mod Arp
pub mod Timer
pub mod Outgoing
pub mod Resolve
pub mod Sample
pub mod Napt
pub mod Ethernet
pub mod Dhcp
