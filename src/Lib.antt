-- ===== src/Lib.antt =====
-- Verification library of the OpenMatter client SDK, the crates matter-sdk-core, matter-sdk-key,
-- matter-sdk and matter-sdk-ffi of the folder crates.
--
-- The program seals secrets for a committee, recovers them from a threshold of its nodes, and signs
-- and submits calls to MatterChain, either as the key itself or for the member who minted the key.
-- The parts, with the files that model them:
--   Core: crates/matter-sdk-core. Core/Seal is `encrypt`, Core/Open `open_secret` and its checks
--     (`subset_points`, `de`, `lagrange_for`), Core/Sealed and Core/Authentic the two together,
--     Core/Wire the hex form, Core/Aad the tags. Pure.
--   Key: crates/matter-sdk-key. Key/Scopes is the bit mask `ScopeSet`, Key/Scopes/Format its text
--     form (`Display`, `FromStr`). Key/Suri is suri.rs, with the grammar of its header as a data
--     type in Key/Suri/Junctions and Key/Suri/Grammar; Key/Scheme is scheme.rs and Key/ApiKey
--     apikey.rs, from a text to a key pair.
--   Signer: crates/matter-sdk/src/signer.rs, the authorization of a request by a key;
--     Signer/Sr25519 is its signer for development.
--   Committee: crates/matter-sdk/src/committee.rs. `decrypt` probes the nodes, then forms quorums
--     until one round collects `threshold` partials, which go to `open_secret` of Core. Its state
--     between requests (faults, votes for other epochs, requests made) is the record `Progress` of
--     Committee/State; Committee/Node is the turn of one node. Committee/Protocol is the same flow
--     as an abstract protocol, over the available nodes and the votes alone; Committee/Live is about
--     requests that enough nodes answer well.
--   Transport: crates/matter-sdk/src/transport.rs, the two requests to a node and the capped
--     reading of a response body; the cap is that of Core/Limits.
--   Chain: crates/matter-sdk/src/chain. Chain/Amount is amount.rs, Chain/ScopesTable the table
--     scopes_table.rs, Chain/Mode mode.rs with Chain/Mode/Lookup its `lookup`, Chain/Network the configuration, guards and decimals of
--     mod.rs, Chain/Connect its `build` and `from_env`, Chain/Client its `tx`, over
--     Chain/Client/Call that builds the payload and Chain/Client/Failure that classifies failures;
--     the state that a submission may change is the mode, which `tx` returns beside its result.
--     Chain/Recover is recover.rs with `recover_secret` of lib.rs and `Secrets::recover` of
--     facade.rs: the chain reads of a secret and its committee, joined into the request that
--     Committee runs; Chain/Recover/Names spells out those
--     reads, Chain/Recover/Opens is about its quorum, Chain/Recover/Integrity relates it
--     to the sealing. Chain/Calls is calls.rs, and Chain/Facade the typed calls of facade.rs, each
--     a constructor with the values that it hands to `tx`. Chain/Access is the accessors of the
--     client, its amounts, and its queries.
--   Ffi: crates/matter-sdk-ffi/src/lib.rs, the C functions over the core, from pointers with
--     lengths to a status and a buffer. Ffi/Memory is where the buffers stand, until they are wiped
--     and freed; Ffi/Handles is apikey.rs, the API keys behind handles, and any sequence of calls.
--   Bindings: bindings/wasm/src/lib.rs and bindings/python/src/lib.rs, the same functions for
--     JavaScript and Python.
--   Error: crates/matter-sdk/src/error.rs, with the texts of the errors. Common: numbers, lists,
--     results and texts. Fixtures: the instances that the examples run on.
--
-- What is outside the repository is an argument: the record `Crypto` (matter-crypto, its bounds and
-- bincode), `HexCodec` (the crate hex), `World` (the nodes, the signer and the random choice),
-- `Rpc` (the node's JSON-RPC with the codec of its answers), `UriParts` and `KeyRing` (key pairs,
-- mnemonics, junctions and the Unicode tables), `Endpoint` (what the node answers while a client
-- connects), `Http` (sending a request) with `Response` (the chunks of a body), `Reads` and
-- `RuntimeApi` (what is read from the chain), `Js` (values of JavaScript), `Allocator` (the addresses of allocations) and
-- `Subxt` with `Answers` (the chain library and what the network answers). Named assumptions on
-- them are `HexLaws` (decoding undoes encoding), `ChoiceLaws` (a choice is of elements of the
-- slice, as many as asked for), `AlphanumericLaws` and
-- `AsciiLaws` (which ASCII characters are alphanumeric),
-- `SealLaws` (a quorum opens what was sealed, a nonce is 12 bytes, a capsule is read back),
-- `AeadLaws` (a sealed payload opens to what was sealed and under its tag, or not at all),
-- `AllocatorLaws` (an address in use is not given out again), `ByteSigner` (what a key signs is
-- bytes) and `Dependable` (which nodes of a request answer well).
--
-- Texts are lists of code points, or native strings where they are only compared. Numbers are
-- natural; bounds of the machine integers are written out where the code can meet them: 128 bits in
-- amounts, 8 bits in decimals. A mask is shifted by 19 at most, so it never leaves 32 bits. The
-- loop of `decrypt` runs on fuel, one more than the active nodes, and the loop on the existential
-- deposit on as much fuel as the deposit; the loop over a derivation path runs on its length. All
-- are shown to suffice.
--
-- Not modelled: sending HTTP and JSON-RPC requests, the derivation of keys, the catching of panics
-- in the C functions, whose modelled bodies have none, the initialization of the cryptography, the
-- clients in other languages on top of the bindings, and the examples.
pub mod Common
pub mod Core
pub mod Key
pub mod Error
pub mod Signer
pub mod Transport
pub mod Committee
pub mod Chain
pub mod Ffi
pub mod Bindings
mod Fixtures
