-- ===== src/Lib.antt =====
-- openlv: a peer-to-peer link between a dApp (the host) and a wallet (the client). The two meet on a
-- public signaling channel named by a connection URL, exchange public keys there, and continue over
-- WebRTC. Paths are from the root of the repository.
--
-- The parts and their files:
--   Errors, Stateful        crates/openlv/src/errors.rs; the outcome of a call (Ok, Err, panic), alone and with state
--   Text, Text.Hex          what the code uses of strings, UTF-8 and digits of the standard library
--   Wire                    crates/openlv/src/signaling/wire: a prefix, a recipient, a ciphertext
--   Message                 crates/openlv/src/signaling/message: the handshake messages and their bounds
--   Encryption              crates/openlv/src/encryption: peer keys and sealing (Asymmetric), the key of the URL
--                           (Handshake), the hash that names the host (Hash)
--   Layer                   crates/openlv/src/signaling/layer: the handshake. State has the fields and the methods
--                           that cannot fail, Sending the calls of the owner and the timers, Opening
--                           and Receive the method handle_receive, Invariant and Lifecycle the proofs
--   Layer.Meeting           two such layers that meet: a host, a client and the frames between them;
--                           Lossy has channels that lose frames and the tasks that repeat them,
--                           Lossy.Timed the deadlines beside them
--   Channel                 crates/openlv/src/signaling/mod.rs, ntfy and mqtt beside it: the channels,
--                           the URL of an ntfy server
--   Transport.Message       crates/openlv/src/transport/message: requests, responses and negotiation messages
--   Transport.Webrtc        crates/openlv/src/transport/webrtc.rs: negotiation, candidates, data channel,
--                           the wait for a state
--   Control                 crates/openlv/src/session/control: tasks, admission of handlers, shutdown
--   Response                crates/openlv/src/session/response: waiting for the answer to a request
--   Session                 crates/openlv/src/session/mod.rs: frames and requests; Start has
--                           the configuration and the making of a session, Handle its handle,
--                           Sending the requests, with two sessions in Sending.Exchange, Running
--                           connect and close, Running.Relay what carries the negotiation,
--                           Running.Loops the event loops, Link the wait for the link
--   Bridge                  crates/openlv-ffi/src/lib.rs: the requests that wait for a native handler
--                           (Requests), the exported session (Exported) and its calls (Calls), the
--                           states it gives out (States)
--   Jsonrpc                 crates/openlv/src/provider/jsonrpc: the answer to a JSON-RPC request
--   Provider                crates/openlv/src/provider: the dispatch of one request and of a batch of an
--                           Alloy client; alloy_1.rs and alloy_2.rs have the same text
--   Url                     crates/openlv/src/url, crates/openlv/src/utils and the protocol names of
--                           crates/openlv/src/signaling/mod.rs
--   Sample                  concrete parameters, for the tests
--
-- How the parts interact: the session sends and opens frames with the peer key of the signaling
-- layer, over the transport, and admits requests by the control. The layer composes and parses wire
-- frames, seals handshake frames under the key of the URL and the others under the peer's key. The
-- client checks the host's key against the hash in the URL. A wallet is started from the URL of a
-- dApp, which carries the identifier of the channel, the hash and the handshake key.
--
-- How the code is read: a `String` is its UTF-8 bytes and `len` their number. A method that holds a
-- lock or a reference to shared state is a function of that state, and one method is one step: the
-- steps of different methods come in any order, and no other step stands inside a method, but for the
-- await between the first copy of a repeated message and the storing of its task (Layer.Lifecycle),
-- and the end of an aborted task, which is a step of its own behind the abort. A `?` is the bind of
-- a result, a panic is an outcome of its own. The handles of the timers are fields, and a timer that
-- fires is a step. Frames, states and messages given to others are kept in lists.
--
-- Loops are structural: over the bytes of a text, over lists, and, where a loop waits for the
-- outside, over the list of what the outside gave. No definition runs on fuel.
--
-- Parameters: the ciphers, the curve, SHA-256, HKDF and base64 (Crypto), the regular expressions and
-- the encoding of a query (UrlLibs), JSON, the clock, the random source and the signaling channel
-- (Platform, SessionPlatform), the peer connection (Rtc), the clients of the two channels
-- (NtfyNetwork, MqttNetwork) and the JSON values of the provider (Json). What the code relies on of
-- them is in the records CryptoLaws, UrlLaws, RtcLaws, ChannelLaws, DrawLaws, Written, JsonLaws,
-- JsonTextLaws, PlatformLaws and SideLaws. A JSON value is a type parameter.
--
-- Bounds: the ids of the bridge's requests wrap around at 2^64, and what is said of them counts at
-- most 2^64 calls. Fewer than 15 lost copies fit, at two seconds each, into the 30 seconds of the
-- handshake's deadline.
--
-- Not modelled: the crate root, which only declares modules and names, and the example programs. Of
-- the foreign function interface, what the generated bindings do on the other side.
pub mod Prelude
pub mod Text
pub mod Errors
pub mod Stateful
pub mod Wire
pub mod Message
pub mod Encryption
pub mod Layer
pub mod Channel
pub mod Bridge
pub mod Jsonrpc
pub mod Provider
pub mod Control
pub mod Transport
pub mod Response
pub mod Session
pub mod Url
pub mod Sample
