-- ===== src/Lib.antt =====
-- QuicProxy carries TCP and UDP connections over several proxy protocols. An inbound endpoint
-- accepts a connection and its target address, the router picks an outbound endpoint for it, and the
-- outbound endpoint sends the bytes on over its own protocol. This library models the parts of the
-- program that compute: the wire formats of the protocols, the parsers and buffers that turn what
-- arrives in pieces into frames and packets, and the choice of an outbound.
--
-- Addr models the target addresses of src/proxy/mod.rs (TargetAddr) and their SOCKS5 encoding, which
-- the endpoints share: write_to, decode from a buffer (Addr/Decode) and read_from a stream
-- (Addr/Stream), and from_str (Addr/Parse). Addr/Text has the text functions that from_str calls.
--
-- Anytls models src/proxy/anytls_proto.rs. Anytls/Frame has the frames and the tail of a frame that
-- was read in part (StreamReadBuffer), Anytls/Reader has FrameReader over poll_fill of
-- src/utils/read_ahead.rs, and Anytls/Uot has UDP over TCP with its packet buffer. Anytls/Packet
-- and Anytls/Packets prove the packets, Anytls/Reader/Unread and Anytls/Reader/Sequence the reader.
-- Anytls/Padding has write_with_padding of src/proxy/outbound/anytls.rs, proved in its child Frames.
--
-- Hysteria2 models src/proxy/outbound/hysteria2/mod.rs and qpack.rs beside it: QUIC varints
-- (Hysteria2/Varint), UDP messages (Message), fragmentation and reassembly (Fragments, proved in
-- Split, Parts, Collect, Reassembly and Pending), the TCP response parser (Response and its children), and
-- QPACK field sections with both tables of the standard (Qpack and its children).
--
-- Router models Rule::matches of src/proxy/router/rule.rs and sniff_dns_target and select_out of
-- src/proxy/router.rs. What DNS servers, GeoIP databases and the crates ipnet and simple_dns answer
-- is a parameter there.
--
-- DnsCache models src/dns/cache.rs: the responses kept in memory in front of a table on disk, what is
-- dropped when they are too many, and which writes a restart finds, over the flush of
-- src/cache/redb_store.rs. DnsCache/Flights has the queries in flight, proved in its
-- children Settled and Shared.
--
-- Shadowquic models src/proxy/shadowquic_udp.rs. Shadowquic/Udp has the state that the sessions of a
-- connection share and what its tasks do to it, one step each: handle_datagram, feed_datagram,
-- bind_context_id, clean and the ends of the tasks; the control stream is in Udp/Control, and Bounds,
-- Owner, Clean and Early prove what holds under all interleavings of the steps. A call that does not
-- wait, such as handle_datagram, is one step. Shadowquic/Sender has ShadowQuicUdpPacket (send_to and
-- get_send_context_id), proved in Ids, News, Announces, Calls, Sessions and Unique, and together with
-- the receiving end in Wire and Delivery. Shadowquic/Path has PathLiveness, and Shadowquic/Request
-- the requests and credentials that src/proxy/outbound/shadowquic.rs writes and
-- src/proxy/inbound/shadowquic.rs reads. A bounded channel of tokio is a list with the documented
-- answers of try_send; what quinn answers is an argument.
--
-- Vmess models the chunk stream of src/proxy/outbound/vmess/vmess_impl/stream.rs (poll_read and
-- poll_write from the first chunk on) over the counters of cipher.rs, proved in Vmess/Writes, Reads
-- and Roundtrip; Vmess/Server is the server's implementation in src/proxy/inbound/vmess.rs, and
-- Vmess/Request the request header that the client writes and the server parses. A cipher is a record
-- of the two operations of an AEAD crate with the laws that it documents.
--
-- FakeIp models FakeIPDNS of src/dns/mod.rs, which gives a name an address of a private network and
-- finds the name again by the address. FakeIp/Reverse has the invariant of its table, FakeIp/Resolve
-- one call, and FakeIp/Runs sequences of queries. Trimming, the text of addresses and
-- which calls of the database work are parameters.
--
-- A byte string is a list of numbers, a Result is a value or an error of the component, a hash map
-- is an association list (Common/Assoc), and text is its UTF-8 bytes (Common/Utf8). Machine
-- integers wrap where the source's types do. A stream is the list of the pieces that its reads give,
-- or the bytes that it still has; a clock is an argument.
--
-- Loops are recursion on what is left to read where the source counts it. The others take fuel:
-- split_loop takes the length of the payload, since each round takes a byte; parse_loop takes 7
-- rounds, since each round moves to a later one of six steps; append_rest takes 10 rounds, since
-- each drops seven of 64 bits; decode_fields takes the number of bytes, since each field has one.
--
-- Not modelled: tasks, sockets, TLS and QUIC, which are crates (tokio, rustls, quinn), the
-- management API, configuration files, databases and platform code. The selector
-- and HTTP/3 authentication have logic that is not modelled here.
pub mod Addr
pub mod Anytls
pub mod Common
pub mod DnsCache
pub mod FakeIp
pub mod Hysteria2
pub mod Router
pub mod Shadowquic
pub mod Vmess
