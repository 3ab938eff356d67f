-- ===== src/Lib.antt =====
-- Models of the Go packages of repani, with the theorems that make them correct.
--
-- kv is an end-to-end encrypted key-value store: devices hold append-only sets of sealed entries and
-- reconcile them with a server. kv/vault seals an entry and gives it its content address, kv/wire
-- carries entries in sealed frames, and kv/store keeps the set of entries, in memory (MemStore) and
-- behind an append-only log (LogStore). The server (kv/server) keeps a store for each vault, takes registrations under
-- quotas, and serves probes, pages, pushes and waits. A client (kv/client) writes into its store and reads
-- the latest value of a key from it. The store of a client and the store of a server are
-- the same code; both order entries by (TsMs, EntryID), compare whole sets by one hash and page by a cursor.
--
-- Base: what the models share. Go's slices are lists; a write at an offset is write_at (Base/Slices);
--   encoding/binary's integers are put_le and get_le (Base/LittleEndian); bytes.Compare and cmp.Compare
--   are compare_bytes and compare (Base/Ordering); sort.Search and slices.BinarySearchFunc are
--   binary_search (Base/Search), whose fuel is the length of the list, since each round takes one off
--   the range; a (value, error) pair is Result (Base/Errors);
--   encoding/hex's text is Base/Hex, encoding/base32's with Crockford's alphabet
--   Base/Base32.
-- Kv/Vault/Sizes: the constants of kv/vault/keys.go and entry.go.
-- Kv/Vault/Entry: Entry and Size, putHeader, MarshalTo, Marshal, Header, UnmarshalEntry of
--   kv/vault/entry.go. Layout has the bytes that they write, RoundTrip the two directions.
-- Kv/Vault/Plaintext: Seal and Open of kv/vault/entry.go.
-- Kv/Vault/Aead: the interface of ascon's AEAD value. Its laws are a tag of 16 bytes, bytes out for
--   bytes in, and that Open returns what Seal was given under the same nonce and associated data.
-- Kv/Vault/Keys: the derivations of kv/vault/keys.go, VaultID's text, and the hedged nonces of nonce.go,
--   with the clock and the random bytes as arguments.
-- Kv/Vault/Pairing: kv/vault/pairing.go, whose texts are their UTF-8 bytes. Normal has what normalize leaves
--   alone, RoundTrip and Canonical the two directions between keys and blobs.
-- Kv/Vault/Ids: Entry.ID, SetHash and SetHashIDs. ascon.CXOF is a parameter without laws; where two
--   entries must not share an id, a theorem has that as a hypothesis.
-- Kv/Wire: kv/wire/wire.go. Errors has its error values, Entries appendEntries and parseEntries, Sync
--   SyncReq with Marshal and ParseSync, Resp the same of Resp, Register RegisterPayload and
--   ParseRegister, PreChannel the answers without a channel, Frame Header, SealFrame, ParseHeader and OpenFrame.
-- Kv/Store/Canonical: the set that the interface of kv/store/store.go promises, a strictly sorted list
--   with ids; Unique has what does not depend on the order of adds.
-- Kv/Store/MemStore: kv/store/memstore.go, each method one step on the state, since it holds the
--   mutex. The map of ids is the list of its keys. Places and Refines relate addLocked with Canonical, Adds
--   has Add, SetHash and Appended, Paging and Pages have EntriesAfter.
-- Kv/Store/LogStore: kv/store/logstore.go on a file that is its content and an offset. What the
--   system answers to Add's Write and Sync is an argument (WriteOutcome), and so is whether the
--   rollback's truncation takes effect. Replay's fuel is one more than the file's length; each round
--   but the last takes at least four bytes. Records and News have the bytes and entries that Add
--   selects, Recovery and Reopen the replay of a cut log, Durable what it is for a store to be in step
--   with its log, Adds and Crash the theorems on Add.
-- Kv/Server: kv/server/server.go, owner.go and record.go. State has Server, vaultState and what the
--   surroundings answer to a request (Env): the clock, which stands still while one request is served,
--   whether a record can be written, the log that is opened, random bytes. A *vaultState is an index
--   into a heap, so that a request still reaches a vault that has left the map. Maps has Go's maps as
--   association lists, Quotas and Record their types, Lifecycle how vaults begin and end, with expiry, Drain
--   and Close, Pushes validateNew and addValidatedLocked, Replies sealResp, Register handleRegister,
--   Serve the operations on one vault, Frames handleSync, handleWait and HandleFrame, Owner the
--   owner's operations, Load New, loadPersistedVaults and DropVaultDir. A record's text is fact's
--   and not modelled; what reading a directory gives is an argument.
--   The stores are the interface StoreOps with the laws of Laws; Stores fills it with MemStore and
--   LogStore (Stores/Fresh, Stores/Weight and
--   Stores/Lawful). Every operation is a chain of a few moves on the state
--   (Moves, Chains), and Steps are the sections that the server runs under its mutex or a vault's, so
--   requests interleave between them. A step's clock and its pushes are below
--   2 ^ 63, and a log that is opened for a new vault is a good store, with entries that `Began` allows. Accounts and Registry are the invariants, Sound puts them
--   together from New and the load of the directories on; Revoked, Waits, Outcomes, Answers, Endings, Restarts and Caps have what follows for
--   revoked vaults, WAIT, PUSH, the answers, the end of a vault, a restart and MaxVaults, and Requests
--   a sealed request's way to its operation.
-- Kv/Client: kv/client/client.go as far as it writes to its store and reads from it. View has Client and
--   keyValue with PutFmt, PutMany, Delete, nextTs, foldLocked and Get; its store.Store is a MemStore, and
--   the map of the view an association list. Positions is the order that posAfter tests, Merge what a fold
--   makes of a set of entries, Reads what Get answers. List and All, and what talks to a server, are
--   not modelled; pull_page is the Add of a page that a pull brought.
-- Lz4s: lz4s/lz4s.go. Decoder has Undelta and Decompress, with the stream's length as fuel, since
--   each round takes a token (Consumed, Bounds); Copies has its back-references; Table has the hash chain of Delta; Encoder has Delta's match search,
--   emit and loop, where the search's fuel is the slot that it starts from, since each slot
--   points below itself (Costs). Sequence is the decoder on one emitted sequence, Matches what the search finds, Prefix and
--   RoundTrip the round trip, Expansion the length of a stream.
-- Row: row/row.go. Row/Int is int64, Row/Varint uvarint with the bytes that binary.AppendUvarint
--   writes, Row/Zigzag zigzag, unzigzag and signed; each has its two directions in a RoundTrip.
--   Row/Value has the values and their rules, Row/Encode val.append, Row/Decode the decoder, whose
--   fuel is the bytes left, Row/Strings the three forms of a string, Row/Items the other items and
--   Row/RoundTrip the rows; Row/Scalars, Row/Canonical and Row/Accepts have what the decoder accepts for an item,
--   Row/OneForm for a row.
-- Kv/Samples, Kv/Server/Samples, the Examples modules and Kv/Server/Exchanges: concrete data, runs and instances of the theorems.
--
-- A w-bit integer is a natural number: where the code narrows an int the model writes `% 2 ^ w`, and a
-- uint64 that is only stored is kept below 2 ^ 64 by a predicate. The int arithmetic of the modelled
-- code stays far below 2 ^ 63 for slices that fit in memory, so it does not wrap. The slots of
-- lz4s's hash chain are int32 and not narrowed in the model: the two agree while the base and the source
-- together are below 2 ^ 31 bytes.
--
-- Not modelled: the network and command line parts of kv (the synchronisation of kv/client, kv/cmd and the HTTP handler of
-- kv/server), the text of the server's records, negative durations in its quotas, the ascon primitives
-- themselves, clocks and random bytes, advisory locks and directory syncs, read errors of
-- the log file, the text form of row and its conversions from and to Go values, and the packages
-- golay, fact, typeset, pica, trudge, kiosk, durable and chrometest.
pub mod Base
pub mod Kv
pub mod Lz4s
pub mod Row
