-- ===== src/Lib.antt =====
-- tls-proxy-tunnel (tpt): a TCP proxy that routes TLS connections by the server name in the
-- ClientHello, directly or through an HTTP CONNECT proxy.
--
-- The program reads a YAML file (src/config), builds a listener for each listen address with a
-- semaphore that limits its connections (src/servers/builder.rs), and runs an accept loop for each
-- (src/servers/protocol/tcp.rs) until a signal (src/servers/mod.rs). A connection is peeked at for
-- its server names (src/servers/protocol/tls.rs), routed to an upstream, and handed to it
-- (src/upstreams/mod.rs): it is closed, echoed, answered with health data, or connected to another
-- server through the DNS cache (src/servers/upstream_address/mod.rs, connect.rs), a CONNECT
-- exchange (http.rs) and a relay of bytes (relay.rs), all three with
-- src/upstreams/proxy_to_upstream.
--
-- Base, Net and Utf8 hold what the parts share: tests on numbers and texts, lists, association
-- lists for `HashMap`, decimal printing, socket addresses and I/O results, and the decoder of
-- UTF-8. The parts are:
--   Config.Types, Config.Yaml: src/config/types.rs, with the defaults that serde fills in
--   Config.Error: src/config/error.rs
--   Config.Url, Config.Verify, Config.Loader: src/config/loader.rs (`try_from`, `verify_config`,
--     `load_config`, `Config::new`)
--   Address: src/servers/upstream_address/mod.rs (`resolve` and its parts); Address.History,
--     Address.Recent and Address.Expiry: sequences of its calls; Address.Tasks: calls side by side,
--     lock by lock, and Address.Tasks.Sequential: one after the other
--   Servers.Types, Servers.Builder: src/servers/mod.rs, src/servers/builder.rs
--   Servers.Tls: src/servers/protocol/tls.rs (`get_sni`)
--   Servers.Routing, Servers.Accept: src/servers/protocol/tcp.rs, `accept`; Servers.Accept.Hello:
--     with the ClientHello of Servers.Tls
--   Servers.Listener: src/servers/protocol/tcp.rs, `proxy`
--   Servers.Shutdown, Servers.Live: src/servers/mod.rs, `Server::run`, on any listeners and on
--     those of a server that was built; Servers.Live.Drained: with the tasks of the connections,
--     Servers.Live.Scraped: with the metrics page
--   Upstreams.Types, Upstreams.Failure: src/upstreams/mod.rs and
--     src/upstreams/proxy_to_upstream/mod.rs, the data
--   Upstreams.Process: `Upstream::process`, `copy` and `ProxyToUpstream::proxy` of the same files;
--     Upstreams.Process.Sequence: connections one after the other, with the cache between them,
--     Upstreams.Process.Requested: with the request as a server reads it, Upstreams.Process.Fails:
--     the errors of all its steps
--   Upstreams.Health: src/upstreams/mod.rs, `health_handler` and the task that serves it
--   Upstreams.Connect: src/upstreams/proxy_to_upstream/connect.rs; Upstreams.Connect.Timing: when
--     an attempt ends
--   Upstreams.Header, Upstreams.Status, Upstreams.Http: src/upstreams/proxy_to_upstream/http.rs
--   Upstreams.Relay: src/upstreams/proxy_to_upstream/relay.rs
--   Cli: src/main.rs, Cli.Messages what `run` itself prints; Cli.Served: from the command line to
--     `accept`
-- The modules below a part hold its proofs, and its module Examples the tests.
--
-- What is asynchronous is explicit: a loop that waits for a socket takes a list of events, one for
-- each round, and is still waiting when it has used them up; tasks that run side by side share one
-- list of events, which may be in any order. All recursion is structural, on the events, the bytes
-- or the entries; only the printing of numbers runs on fuel, which is one more than the number and
-- so above its digits. Times are nanoseconds. A timer fires at its time or later, by a lag that is
-- a parameter, since tokio rounds up to a millisecond; every lookup of the resolver answers at some
-- time. A `u64` counter wraps at 2^64. Shared semaphores are numbers of places in a list; a shared
-- cache is put back where it came from.
--
-- Parameters are the file system, the environment, the YAML and URL libraries, the TLS parser, the
-- parsing and printing of socket addresses, the display of I/O errors, Unicode's class of
-- alphanumeric characters, the resolver and the dialling of an address; semaphores are an interface
-- with the laws that tokio documents. hyper is a list of the requests that it hands over; its tasks
-- run outside the tracker, so that the server does not wait for them. Not modelled are log lines
-- that have no effect on the rest, and the runtime's message for a panic.
pub mod Address
pub mod Base
pub mod Cli
pub mod Config
pub mod Net
pub mod Servers
pub mod Upstreams
pub mod Utf8
