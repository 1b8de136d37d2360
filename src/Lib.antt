-- ===== src/Lib.antt =====
-- A model of the services and of the cryptographic library of NewZoneReference, with the theorems
-- that make them correct.
--
-- The program is a set of microservices in JavaScript, each with a core (services/<name>/index.js),
-- which keeps bounded data in memory, and an HTTP server (services/<name>/server.js), which reads
-- JSON bodies that may be signed routing packets. The services share the library lib/.
--
-- The files and the code that they model:
--   Js, Js/Array, Js/Object: the values of JSON, truthiness, `slice`, and the reading of a plain
--     object by a computed name, which also finds what `Object.prototype` has.
--   Services/Queue, State, Event, Scheduler, Directory, Logging, Storage, Rules, Analytics, Identity,
--     Metadata, Consensus, Monitoring, Messaging, Routing, Gateway, Discovery:
--     services/<name>/index.js (Messaging is services/p2p_messaging), one function per exported
--     function, named after it in snake_case (`setState` is `set_state`). The module-level state is
--     passed in and returned; the time, the random identifiers and what other services answer are
--     arguments; the requests that a function starts are values that it returns or collects.
--   Services/Peers: services/p2p_node. Services/Replication: the merge and the push of
--     services/replication/index.js. Services/Oldest: the eviction that two of the cores share.
--   Services/Http: the helper `parseRequestBodyWithCrypto`, which each server.js has; two of them
--     have the variant without a guard. Services/Trust: the table of known nodes, of which each server
--     keeps a copy. Services/Forward: what becomes of a request that is passed on.
--     Services/Ports: config/ports.js and `logEvent`. Services/Registration: lib/nz-lib.js and
--     lib/generate-node-keys.js.
--   Services/<Name>/Server: the request handler of services/<name>/server.js, as `handle`; for the
--     messages, the routing and the discovery it stands with the core.
--   Crypto/X25519, Bytes: lib/x25519.js. Crypto/Hkdf: lib/hkdf.js and lib/blake2b.js.
--     Crypto/SessionKeys: lib/sessionKeys.js. Crypto/Aead: lib/chacha20poly1305.js.
--     Crypto/Channel: lib/secureChannel.js. Crypto/Routing: lib/nz-crypto-routing.js.
--     Crypto/Ed25519: lib/ed25519.js. Crypto/Handshake: lib/handshake.js.
--     Crypto/Facade: lib/nz-crypto.js. Crypto/Seed: lib/nz-crypto-seed.js.
--     Crypto/Adapter: lib/nz-crypto-adapter-pure.js.
-- The event server stores the payload of a signed event in the storage, puts it on a queue for the
-- rules and publishes it on its bus; the discovery service feeds the tables by which all servers check
-- packets; the gateway and the routing service pass requests on, and the handler of the gateway returns
-- the requests that it sends with its reply.
-- Crypto/X25519/Steps has the projective formulas of the curve, against which the ladder is compared, and
-- Crypto/X25519/Residues the reckoning modulo the prime.
-- The child modules of a component (Bounds, Fifo, Merge, Requests, ...) hold its proofs; Tests holds
-- the theorems at concrete inputs.
--
-- Numbers are natural numbers or integers: fractions, infinities and NaN are left out, but where an
-- optional number says so. A key is any text but `__proto__`, and the keys of an object are listed
-- in the order in which they were added, also those that look like an index. The digests, the
-- cipher and the signatures of node:crypto are parameters, with the lengths and the round trips
-- that they promise; so are the conversion of a value to a property name (taken to give one, although
-- an object with a `toString` of its own can refuse), `JSON.stringify` of a value that is no object,
-- and the parsing of numbers and query parameters. The table of known nodes is never `null`, and an
-- array is no configuration of the rules.
--
-- Bounds: the ladder runs 255 rounds and the inversion 255, which is the length of its exponent; the
-- digits of an epoch are written with one round more than the epoch, which is enough for any
-- number, and those of a port with five; every other loop runs over a list or counts down.
--
-- Not modelled: the sending of requests, files, sockets and timers, the merge of a replicated payload
-- that is no dump, the loops of the replication, and the tools, examples and tests.
pub mod Prelude
pub mod Js
pub mod Services
pub mod Crypto
pub mod Tests
