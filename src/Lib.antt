-- ===== src/Lib.antt =====
-- A verification library for clash-rs, a rule-based proxy.
--
-- A connection reaches the dispatcher as a session with a destination address. The router asks its
-- rules, in the configured order, which outbound the session goes to; a rule may need the
-- destination's address, for which the router asks the DNS resolver. With fake-IP the DNS server
-- answers with addresses of a reserved subnet, and the session's domain is found again from the
-- address. The trie of domains serves the fake-IP filter, the name-server policy and the geosite
-- rules. An outbound can be a group, which chooses one of its providers' proxies by what the proxy
-- manager knows of them. Traffic of the TUN device passes through the ring buffers of the network
-- stack. The Hysteria 2 outbound cuts UDP payloads into datagrams and puts them together again.
--
-- The files, with the sources that they model (paths from the repository's root):
--   Prelude: shared names, texts as lists of bytes, big-endian words, results, maps.
--   Trie: clash-lib/src/common/trie.rs. `insert`, `search` and `valid_and_split_domain` have the
--     source's names; the two loops take the labels of a domain reversed. Trie.Paths relates the
--     tree to a map from paths to data, Trie.Search says which paths match, Trie.Domains states
--     the theorems on domains.
--   Session: clash-lib/src/session.rs. `write_buf`, `size`, `read_from`, `peek_read` and
--     `TryFrom<&[u8]>` (`Convert.try_from`), over the byte readers of Session.Buffer.
--   FakeIp: clash-lib/src/app/dns/fakeip/mod.rs, with its store as a record of operations; the
--     store over the cache file is FakeIp.FileStore (file_store.rs).
--   Profile: clash-lib/src/app/profile/mod.rs, the data of the cache file and its accessors.
--   Router: clash-lib/src/app/router: `match_route` and the rules, the domain matchers of geosite
--     rules (Router.Geosite), the configured rules of clash-lib/src/config/internal/rule.rs and
--     `map_rule_type` (Router.Config).
--   RingBuffer: clash-netstack/src/ring_buffer.rs: `enqueue_slice`, `dequeue_slice` and any sequence
--     of them (RingBuffer.Steps).
--   ProxyManager: clash-lib/src/app/remote_content_manager/mod.rs: the registry of alive flags and
--     delays; `tested` is what `url_test` does to it.
--   Groups: clash-lib/src/proxy/utils/provider_helper.rs and clash-lib/src/proxy/group: which proxy
--     the selector, the fallback group, the url-test group (Groups.Fastest) and the round-robin
--     strategy choose.
--
--   DagSort: clash-lib/src/app/outbound/utils.rs: `proxy_groups_dag_sort`, with the order in which its
--     hash map yields the names as a parameter; DagSort.Loops is about its second half.
--   CidrRanges: clash-lib/src/app/remote_content_manager/providers/rule_provider/mrs.rs: the conversion of a
--     range of addresses into networks, `range_to_cidrs`.
--   RuleSet: the reading of the MRS format in the same file, behind its decompression.
--   Hysteria2: clash-lib/src/proxy/hysteria2: the UDP packets, their `Fragments` and the `Defragger`
--     of codec.rs, the UDP sessions of mod.rs and datagram.rs (Hysteria2.Connection), the stream
--     request of codec.rs (Hysteria2.Tcp) and salamander.rs (Hysteria2.Salamander). Hysteria2.Laws
--     is what is asked of the variable-length integers and of the texts of addresses.
--   Dns: clash-lib/src/app/dns: filters.rs (Dns), which name servers the resolver asks (Dns.Enhanced,
--     resolver/enhanced.rs), the cache of records and the lookup of a name (Dns.Resolve), the
--     resolution of a host and the DNS server's answers (Dns.Server, with server/handler.rs), and
--     what `EnhancedResolver::new` makes of the configuration (Dns.Filters, with config.rs).
--   Dispatcher: clash-lib/src/app/dispatcher/dispatcher_impl.rs: the destination that a fake or a cached
--     address stands for, and the handler that `dispatch_stream` gives the stream to, with an example
--     in FakeIp.Examples; Dispatcher.Datagrams is the map of UDP sessions of `dispatch_datagram`.
--   Streams: UDP packets (clash-lib/src/proxy/datagram.rs) and what each poll of a stream does, as the
--     environment chooses it.
--   Trojan: clash-lib/src/proxy/trojan: the sink and the reader of UDP packets of datagram.rs, and the
--     header of a stream of mod.rs and inbound.rs (Trojan.Header).
--   Vless: clash-lib/src/proxy/vless: the sink and the reader of UDP packets of datagram.rs, and the
--     request and the response of stream.rs (Vless.Stream).
--   Statistics: clash-lib/src/app/dispatcher: the counters of statistics_manager.rs and of the tracked
--     streams, UDP sessions and zero-copy trackers of tracked.rs. A task that is spawned and what a
--     poll adds are lists of atomic actions, which are run in any order.
--
-- State is passed explicitly: an operation takes the state and returns the new one. A call that can
-- fail returns an `Outcome`, whose constructor `panic` stands for a panic of the thread. An operation
-- on a 32-bit number keeps its wrap-around. Six loops have
-- fuel: the search for a free fake address, for which as many rounds as the pool has addresses are
-- enough (FakeIp.Loop), the loop over the fragments of a payload, whose number is a byte, so that
-- 256 rounds are enough (Hysteria2.Fragments), the loop over the headers of empty VLESS packets,
-- for which one round more than there are bytes is enough (Vless.Pieces), the work lists of the sort
-- of the groups, for which one round for each node is enough (DagSort.Rounds, DagSort.Loops), and the loop over the
-- blocks of a range, for which one round for each of its addresses is enough (CidrRanges.Covers).
--
-- Not modelled: the other outbound protocols, the listeners, the HTTP controller, the DNS clients and
-- servers and the loading of files, which are I/O over third-party crates. Regular expressions,
-- networks, the MMDB, the process table, the parsers of addresses and ports, the
-- hash of Salamander and the answers of the network are parameters of the definitions that use them.
pub mod Prelude
pub mod Trie
pub mod Session
pub mod FakeIp
pub mod Dispatcher
pub mod Dns
pub mod Profile
pub mod Router
pub mod RingBuffer
pub mod RuleSet
pub mod ProxyManager
pub mod Groups
pub mod Statistics
pub mod Hysteria2
pub mod Streams
pub mod Trojan
pub mod Vless
pub mod CidrRanges
pub mod DagSort
