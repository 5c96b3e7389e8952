-- ===== src/Lib.antt =====
-- wiretally: a proxy on loopback that counts, for each remote host, the bytes that a child process
-- sends and receives through it.
--
-- The parts of the program and the files that model them:
--   src/socks.rs   Socks: constants, `accept`, `reply`, `reply_bound`. Socks/Wire describes the
--                  protocol's destinations, Socks/Handshake its greeting and request.
--                  Socks/Datagram: `parse_datagram` with its cursor, and `encode_datagram`.
--                  Socks/Message: the texts of the errors.
--   src/stats.rs   Stats: `EndpointStats`, `Registry`, `rename`, `snapshot`, `matches_domain`.
--                  Stats/View is the registry by host, Stats/Filter the labels of a domain name,
--                  Stats/Abstract the traffic of each host, with its order forgotten.
--   src/io.rs      Io: `Counting`, `Rewind` and `ConnLog`. Io/Run is a caller that polls a stream,
--                  Io/Payload the bytes that it gets.
--   src/proxy.rs   Proxy: `read_head`, `request_line`, `head_body`, `split_authority`.
--                  Proxy/Tunnel: `handle_connection`, `serve_socks`, `connect_and_splice` up to the
--                  copying of bytes. Proxy/Splice: the copying, with counters that streams share.
--                  Proxy/Connector: `CountingConnector`, `CountedStream`, `CloseLog`. Proxy/Http:
--                  `forward` and what it calls. Proxy/Association: `relay_udp`. Proxy/Tasks:
--                  the accept loop and its tasks, as far as they share the registry. Proxy/Serve: the
--                  task of one connection as a whole, with `serve_http` and the end of
--                  `connect_and_splice`. Proxy/HeadEnd, Blank, ReadPast and ConnectHead say where a head
--                  ends.
--   src/udp.rs     Udp: `Relay` and its loop. Udp/Account is the invariant of its handles,
--                  Udp/Credit what a send adds to the registry, Udp/Bytes what a run does,
--                  Udp/Amounts the run's history, and Udp/Known what the relay keeps of it.
--   src/dns.rs     Dns: `ReverseResolver` with its cache, and `hostname` in its two steps.
--   src/report.rs  Report: `Totals`, `Report::new`, `elide`, `format_bytes`. Report/Render is `to_text`.
--   src/main.rs    Main: what happens when the child has ended, that is `drain`,
--                  `resolve_ip_only_endpoints`, `exit_code` and the report. Main/Answers
--                  and Main/Names: the names that lookups come to. Main/Run: `run` and `main` around it.
-- The proxy hands a connection to `accept` or reads an HTTP head, rewinds what it read
-- too much of, and counts the rest in the registry's cells through `Counting`.
--
-- What they stand on:
--   Prelude        tests and lists over the native numbers, `Result`, and actions with a state.
--   Text           the methods of `str` that the program calls; a text is a list of code points,
--                  and UTF-8 is decoded as the standard does, losses included.
--                  Text/Float has the `f64`s that are printed: a mantissa below 2 ^ 53 with a scale,
--                  rounded half to even.
--   Net            addresses as lists of octets, and how the standard prints and parses them.
--   Stream         the peer of a connection: the bytes it will have sent, how the stream ends,
--                  whether writes fail, and what was written. `read_exact` waits for all its bytes,
--                  so it does not depend on the sizes in which they arrive.
--   Map            `HashMap` as a list of entries.
--
-- Integers are natural numbers; `u64` counters wrap at 2 ^ 64 where the code adds to them, and bytes
-- are below 256 where a theorem says so. The loops are recursions on the data that they walk.
-- `trim_start_matches` has a round for each character, since each round removes one at least, and
-- printing a number has more rounds than digits. `read_head` has one round more than there are bytes to
-- read, since each round but the last takes one at least, and so has the loop of `relay_udp` that reads
-- the control connection. `drain` has 201 rounds: a sleep takes ten
-- milliseconds at least, and the timeout is two seconds. What its rounds find, the clock and the
-- registry, is a function of the round, so the connections may do anything between two of them.
-- The lookups of addresses are tasks of two steps each, which go on in the order that a schedule says;
-- those that it leaves are finished when they are awaited. What tasks that the drain did not wait for do to
-- the registry comes between the drain and the renames; that they may also do it between two renames is
-- not modelled.
--
-- A datagram is an event of the relay together with the system's answers to it: those of `lookup_host`
-- and of `send_to`. The relay's sends and log lines are kept as lists, the lines as values that
-- Udp/Message prints.
--
-- An atomic operation or a locked section is one step, so the functions that take a registry to a
-- registry are the steps that threads interleave. Not modelled: how an `io::Error` is printed, the
-- timestamps of the log, serde's derived output, and the parts of the program that these files do not
-- name: of src/main.rs the parsing of the command line and the printing. hyper's header map, its `Uri`,
-- its client and its `serve_connection` are parameters, as are the poll functions of a TCP stream where
-- a tunnel copies, and `copy_bidirectional` is any schedule of polls. What hyper may do with its sockets
-- is a step relation in Proxy/Serve/Sockets.
pub mod Dns
pub mod Io
pub mod Main
pub mod Map
pub mod Net
pub mod Prelude
pub mod Proxy
pub mod Report
pub mod Socks
pub mod Stats
pub mod Stream
pub mod Text
pub mod Udp
