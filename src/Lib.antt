-- ===== src/Lib.antt =====
-- A verification library for Torana Edge, the local proxy that runs sandboxed plugins between coding
-- agents and model providers.
--
-- Requests are admitted by the limiter (RateLimit), sent to a provider or, when it fails, to the
-- fallbacks that it names (Failover), answered as streams of events that pass through plugins
-- under the host's verifiers (Stream), and reported to a feed that the control plane shows
-- (Feed). Plugins keep small values in a versioned store (PluginState), and values that may be
-- lost in a cache with expiry (Cache). The host keeps its suggestions to the user, and the
-- operations that the user accepts, in that store as one record for each conversation, changed by
-- a loop of read and conditional write (Suggest).
--
-- Feed: internal/metrics/feed.go. `RequestFeed` is a record with its ring as a list of
--   events, its head and its count; `Add`, `Snapshot`, `SnapshotForConversation` and
--   `SubscribeWithSnapshot` are `add`, `snapshot`, `snapshot_for_conversation`,
--   `subscribe_with_snapshot` and `unsubscribe`. A channel of a subscriber is the list of what
--   it still holds; what an unsubscribe closure holds is a `Subscription`.
-- RateLimit: internal/proxy/ratelimit.go. Buckets live in a heap, so that a lease keeps its bucket
--   when the map loses it. Tokens are float64 as in the source: Prelude/Float64 rounds each operation
--   to 53 bits, and fuses none; one clock reading serves one call.
-- Cache: internal/cache/cache.go. `LocalCache` keeps the map, the recency list and the byte count as
--   three fields; `Set`, `Get`, `Delete`, `Len` and `evict` are `set`, `get`, `delete`, `entry_count`
--   and `evict`, each with the clock's reading as an argument. The loop that gives up entries runs on
--   fuel, one round for each entry and one more, after which it has ended.
-- Failover: internal/proxy/failover.go. `RoundTrip` is `round_trip`, in the parts `attempt_buffered`,
--   `attempt_first` and `try_fallbacks`; its effects, in their order, are on a record `Turn`: the
--   releases of the lease, the bodies closed, the requests sent. The transport answers by the number
--   of the exchange. The configuration is read anew for each fallback.
-- Stream: internal/plugin/streamverify.go and internal/plugin/stream_enforce.go. Stream/Discipline
--   is the incremental walker, Stream/Accepted is `validateAcceptedStream`, Stream/ToolScopes is
--   `verifyToolScopes`, Stream/Scan `scanStreamSignatures`, Stream/Bindings
--   `verifySignatureDeltaBindings`, and Stream/Verify `verifyStream` and `verifyStreamPrefix`;
--   Stream/Consume holds the arrays of consumed items that both verifiers use, and the other files
--   prove. A Go map from typed contents to counts is a function to integers, and a span ordinal -1
--   is `none`. The plugin kit's event types are data types with the
--   payload that these functions read. The kit's `ClassifySignatureMutation` and `Allowed` are
--   parameters, of which the proofs use the documented verdicts at most.
-- PluginState: internal/pluginstate/store.go, the memory backend. `strconv.FormatUint` is a
--   parameter, assumed to be injective where versions are compared. PluginState/Scans holds the
--   listings, which PluginState/Pages and PluginState/Resumed are about, and
--   PluginState/Bytes the bytes that a store holds.
-- Suggest: internal/suggest/store.go, operation.go, changes.go and setup.go. Suggest/Records,
--   Suggest/Creation, Suggest/Operations and Suggest/Changes are the changes to one record, each a
--   function of the record; Suggest/Proposals the checks before a creation, and the listings;
--   Suggest/Calls collects the changes; Suggest/Update is `read` and `update` over
--   an interface to the store, at the key of the conversation, with other callers acting in between,
--   and Suggest/Reports the calls that go through it. Suggest/OnStore is that interface on
--   PluginState, as internal/proxy/server.go puts them together, with the hashed key a parameter, and
--   Suggest/Committed and Suggest/Kept are about `update` on it. Suggest/Setup is `SetupHint`, with
--   its change of a record in Suggest/Hint, which Suggest/HintSteps and Suggest/Quiet
--   follow. JSON, the clock, random codes and the identifiers are parameters. A text that only a few
--   values are written to is an enumeration.
--
-- Bounds: the limiter's fields, the loop of eight writes, the sixteen attempts at a code, 128
-- suggestions, 16 changes and the 64-bit counters are as in the source. Apart from those loops, which
-- are bounded in the source, the rounding of floats runs on fuel: 2100 halvings, more than the 2097
-- bits of any number in range.
--
-- Not modelled: locks, since each method holds its lock throughout; the bolt database behind the
-- plugin state; the event policy and journal; signed tickets; and input and output.
pub mod Prelude
pub mod Feed
pub mod RateLimit
pub mod Cache
pub mod Failover
pub mod Stream
pub mod PluginState
pub mod Suggest
pub mod Tests
