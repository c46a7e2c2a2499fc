-- ===== src/Lib.antt =====
-- Verification library of pesigitg, a load balancer for QUIC that forwards frames by the server id in
-- the Connection ID (QUIC-LB), with AF_XDP below it.
--
-- The program. A server makes Connection IDs with its encoder. The daemon parses a frame, finds the
-- route entry by the top bits of the ID, decrypts the ID to a server id and rewrites the frame's MACs.
-- A frame whose ID it cannot decode goes by the connection table and, behind that, by a hash over the
-- servers in good health. A stateless Retry service answers Initials, and ICMP errors follow the flow
-- that they report on. Below the daemon, a filter in the kernel picks out the frames for its ports;
-- beside it, the main loop probes the servers, resolves their MACs and publishes the table anew.
--
-- Files and sources.
--   Prelude    Rust's results (a value, an early return, a panic), indexing and slices, postconditions
--              that exclude a panic (`Safe`), byte lists, `^` on bytes.
--   Common     pesigitg-common/src: hex.rs and mac.rs. Common.Address stands for `std::net::IpAddr`.
--   Routing    pesigitg-routing/src: Routing.Route is route.rs, Routing.Cid is cid.rs.
--   Encoder    contrib/quic-lb-core/src/lib.rs.
--   Conntable  pesigitg-daemon/src/conntable.rs.
--   Config     pesigitg-daemon/src/config: route.rs (Config.Table, with ../cid.rs), retry.rs
--              (Config.Retry) and key_age.rs (Config.KeyAge).
--   Quic       pesigitg-daemon/src/quic/initial.rs.
--   Packet     pesigitg-daemon/src/packet.rs: Packet.Parse from `parse_frame` down, Packet.Process from
--              `process_packet` down.
--   Retry      pesigitg-daemon/src/retry: token.rs, packet.rs (Retry.Build), load.rs and datapath.rs
--              (Retry.Datapath, with its checksums in Retry.Checksum). Retry.Load.Threads has load.rs with
--              several threads, one access to an atomic a step.
--   Health     pesigitg-daemon/src/health.rs: `check` and what it calls. Health.Round has a round as a
--              change of each server, Health.History a server's state against its probes.
--   Neigh      pesigitg-daemon/src/neigh.rs: the reader of a netlink dump (its rounds in Neigh.Rounds) and
--              `resolve_macs`.
--   Daemon     `check_and_rebuild` of pesigitg-daemon/src/main.rs and `reload_config` of
--              pesigitg-daemon/src/config/mod.rs; Daemon.Upkeep has their runs.
--   Filter     pesigitg-ebpf/src/main.rs.
--   Stats      pesigitg-daemon/src/stats.rs, with what the packet loop of threading.rs counts; one record
--              of counters serves WorkerStats, BatchStats and Snapshot (Stats.Snapshots).
--   Tests      instances of the theorems at concrete values.
-- A function of the source is a definition of the same name; a branch that has a name of its own in the
-- model is called by it in the place where the source has it. A function that changes its argument
-- returns it: `process_packet` returns verdict, frame and connection table.
--
-- Numbers are naturals, and the wrap-around of a machine word is written out where a sum can reach it.
-- A byte slice is a list of naturals; an index or slice out of range is a panic, which release builds
-- turn into an abort. A hash map is an association list, an instant a number of nanoseconds.
-- Recursion is structural throughout. The loops that have a bound in the source have it here, as for
-- the six IPv6 extension headers; `while acc > 0xffff` in the checksum runs twice at most on 32 bits.
-- The loops over a netlink buffer and its attributes run on fuel, one more step than the buffer's
-- length allows; to run out is a panic, which Neigh.Safety excludes. The loop over the calls of `recv`
-- has no bound in the source: its fuel is the number of rounds that are looked at, and to use it up is
-- the outcome `waiting`. A text is the list of its bytes in UTF-8.
--
-- Parameters: the AES block functions, AES-128-GCM and HMAC-SHA256, random bytes, the hash of a flow,
-- the TOML reader and the parser of IP addresses, the outcome of a health probe's handshake, what the
-- netlink socket receives (in little-endian order), the map of monitored ports and the redirect of a
-- frame into a socket. The theorems name what they ask of them.
--
-- Not modelled: sockets, threads and maps of the datapath (threading.rs, xsk.rs, ebpf.rs and what they
-- call), the status API and the control tool, which are input and output; args.rs and the text of
-- the counters.
pub mod Prelude
pub mod Common
pub mod Routing
pub mod Encoder
pub mod Conntable
pub mod Config
pub mod Quic
pub mod Packet
pub mod Retry
pub mod Health
pub mod Neigh
pub mod Daemon
pub mod Filter
pub mod Stats
pub mod Tests
