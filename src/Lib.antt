-- ===== src/Lib.antt =====
-- A model of the field bridge application, app/src/*.c: one MQTT broker node whose settings are
-- kept in a persistent store, shown and changed over a console and over HTTP, and turned into
-- peer-to-peer seeds and a runtime status.
--
-- Base: numbers, lists, C strings. A `const char *` is the list of its characters without the
--   terminator; a `char` array is the list of all its bytes, so strncpy, snprintf and memcmp are
--   the byte operations they are.
-- Config: app/src/product_config.h and app/src/product_config.c. The three static variables are a
--   record beside the state of the store. dephy_config and hwinfo are not in this repository:
--   they are the record `Platform`, and what the proofs need of a store is `IsPersistent`, and
--   `IsSizedStore` where the sizes of the arrays matter: it says of a property of the store's
--   content, which the proof is free to choose, that loads and saves respect it.
-- Topics: app/src/product_topics.c.
-- Bridge: app/src/bridge_control.c; inet_pton and the seed table of the mesh module are the
--   record `Mesh`.
-- Runtime: app/src/product_runtime.c; what the mesh reports is the record `P2p`.
-- Console: app/src/product_console.c. A session is a list of lines, which the thread takes from
--   what console_getline returns; the output is the list of what the write callback gets. The
--   line's word selects a `Command`, and the tests of the dispatch stand in the source's order.
--   `atoi` and the token search are written out, since the commands depend on them; an overflow
--   of `int` there, which C leaves open, wraps in a menu number and ends at the greatest or the
--   least value in `atoi`, as where it is strtol with a `long` of 32 bits.
-- Http: app/src/provisioning_http.c. Json, Builders and Apply are the functions on JSON, Handlers
--   the texts of the GET requests, which both servers have in common, and the POST paths of the
--   Zephyr server, Posts those of the Linux server, Linux, with Wire, and Zephyr the servers; the
--   other files are proofs. A pointer into a text is what stands behind it. strstr, strchr,
--   sscanf and strtol are written out, since the readers depend on them. The calls of recv and
--   send are lists of what they give; in Zephyr the client's request and the calls of the handler
--   are given.
-- Ethernet: app/src/product_ethernet.c; the driver, with the sizes of its arrays, is the record
--   `EthDriver`.
-- IoBridge: app/src/product_io_bridge.c; the printers of dephy are parameters.
-- StatusIo: app/src/product_status_io.c, the lamp and the button, as steps that carry the time.
-- Startup: app/src/main.c, the wait for the Ethernet link, the phase of `main` between the
--   network and the broker, and the broker's thread with the main loop of the W5500 build; Boot
--   is `main` up to that loop, Plain `main` in the builds without the W5500. What the other
--   threads do is a step between two rounds of the loop. The wait runs on fuel of one round for
--   each millisecond of the timeout and one more, where a round takes 250 ms.
-- System: the node as a whole, with the part of the state that each of main.c, product_console.c,
--   provisioning_http.c and product_status_io.c sees. Steps is the relation of the moves: a line,
--   a call of the HTTP handler, a round of main's loop, the entry of the broker's thread, a tick
--   of the lamp, a sample of the button, a change of the seed table, and a power-on. A move is
--   whole when the next begins, also a power-on up to main's loop, whereas the threads of the
--   device can be preempted inside of one, since the source takes no lock.
-- Samples and Tests: concrete values, runs, and the theorems at inputs that meet their
--   hypotheses.
--
-- Functions keep their names without the prefix of their file: product_config_set_peer is
-- Config's `set_peer`. A result of 0 is `ok`, any other `fail`; a pointer that the code tests for
-- NULL is an `Option`; an out parameter is a result. Logging is left out. FIELD_BRIDGE_PEER_MAX
-- is 2, its default. Loops over the slots recur on the rounds left and those over a text on the
-- text, so they need no fuel.
--
-- Not modelled: what the calls of Zephyr, of drivers, sockets and threads, of the broker and the
-- mesh modules, and of the browser page do; the delay of a reboot, whose requests are counted;
-- and threads that are preempted inside of a move.
pub mod Base
pub mod Config
pub mod Topics
pub mod Bridge
pub mod Runtime
pub mod Console
pub mod Http
pub mod Ethernet
pub mod StatusIo
pub mod Startup
pub mod System
pub mod IoBridge
pub mod Samples
pub mod Tests
