-- ===== src/Lib.antt =====
-- An aggregator of the BTCUSDT order book: three venue threads parse exchange frames into updates,
-- one engine thread applies them to venue books, merges the books into one ladder and publishes it;
-- subscribers derive the touch, volume bands and price bands from the ladder.
--
-- Common holds the names, lists, texts and integers that all modules share. Then, a module to a part:
-- - Fixed: src/core/fixed.h and fixed.cc. ParseFixed is parse_fixed, FormatFixed is format_fixed, and
--   each inline helper has its own function. Fixed/Bounds has the bounds, Fixed/Printing and
--   Fixed/RoundTrip the text of an amount.
-- - Book: src/core/book.h and book.cc. `apply`, `apply_batch`, `replace` and `invariant` are the
--   methods of SideBook with the template argument as the first argument. Book/Order has the order
--   of prices, Book/Lookup the book as a map, Book/Keep and Book/Deltas and Book/Merge the lemmas,
--   Book/Batch and Book/Invariant the results.
-- - Ladder: src/core/consolidated.h and consolidated.cc. `merge_side` is MergeSide; its cursors are
--   the levels that are left of each input. Its loop takes as fuel one more than the number of levels
--   of all inputs, which is enough since each round passes a level (Ladder/Heads).
-- - Analytics: src/core/analytics.h and analytics.cc. `walk_level` is a round of the walk and `drain`
--   its inner loops. Analytics/Bands has the volume bands, Analytics/PriceBands the price bands against
--   sums of their own.
-- - Json: src/net/json.h. Documents and accessors of simdjson are the parameter `Json`.
--   `get_i64` is GetI64, with its result in Json/Numbers.
-- - Venues: src/venues/venue.h, and below it the three protocols, binance, okx and bybit. A handler
--   returns a verdict, the new state and the updates appended.
-- - Slot: src/core/conflating_slot.h. `publish`, `take` and `stop` are the methods, and a run is a list
--   of them in the order of the mutex.
-- - Engine: src/aggregator/engine.h and engine.cc. `apply` and `publish_book` are Apply and Publish,
--   `select` is SelectContributingVenues, and `run_round` of Engine/Loop is a round of Run, with the
--   rings as lists; `latency` of Engine/Latency is Latency. Engine/Books, Engine/Publishing, Engine/Progress,
--   Engine/Touch and Engine/Percentiles have the results.
-- - Service: src/aggregator/service.cc, with the messages of src/proto/md/v1 as records in
--   Service/Messages and Service/Status. `normalise_bands` is NormaliseBands and `run_stream` is
--   RunStream, with a list of what its waits give. A refusal has its kind and the value that the
--   message names.
-- - Retry: src/core/retry.h. `next` and `reset` are the backoff, `try_consume` the budget; Retry/Backoff
--   and Retry/Budget have the results.
-- - Ring: src/core/spsc_ring.h. The threads' accesses to the indices are steps (`move_producer`,
--   `move_consumer`), and `push` and `pop` are calls that run to their end. The loop that rounds the
--   capacity up has fuel for 64 doublings of a 64-bit size (Ring/Capacity); Ring/Holding and
--   Ring/Threads have the invariant, Ring/Interleaving and Ring/Sequential the results on the queue.
-- - Url: src/net/url.h and url.cc. ParseUrl is parse_url; Url/Print prints an address.
-- - WsClient: src/net/ws_client.h and ws_client.cc. Each handler of WsConnection has its function, on the
--   connection's fields and a log of what the socket library is asked for and the callbacks told;
--   `step` is what can happen next. WsClient/Safety and WsClient/Runs have the invariant.
-- - Runner: src/venues/runner.h and runner.cc. Each member function of VenueRunner has its function; the
--   record `Protocol` is VenueProtocol, which Runner/Protocols fills with the three venues and
--   Runner/Laws with what the runner needs of them. Runner/Safety and Runner/Runs have the invariant.
-- - Pipeline: one venue's runner, its ring and the engine, as src/aggregator/main.cc wires them and
--   Engine::Run drains them. Pipeline/Sending and Pipeline/Handlers have what a handler pushes,
--   Pipeline/Feeds what the three venues hand on, Pipeline/Invariant what a step keeps, and
--   Pipeline/Delivery the results; the ring is the queue of Ring/Sequential.
-- - HttpClient: src/net/http_client.h and http_client.cc. `complete` is what the session does when an
--   operation ends, `http_get` is HttpGet; HttpClient/Once has the result.
-- - Flags: src/common/flags.h, with ParseClientOptions and SplitCsv of src/clients/common.h in
--   Flags/Clients. Flags/Parsing reads a command line back.
-- - Client: src/clients/common.h and the four programs beside it. `read_loop` and `stream_loop` are
--   StreamLoop; Client/Rendering has the texts, over a `Printing` that stands for the formatting
--   library. Client/Loop and Client/Rendering/Names have the results.
-- - Startup: BuildVenues of src/aggregator/main.cc; Startup/Selection has the result.
-- - Examples: the theorems at concrete inputs, and runs.
--
-- Amounts of type int64_t and __int128 are exact integers: C++ leaves overflow undefined, and the
-- functions that narrow are modelled with their bounds. std::to_string has fuel for twenty digits,
-- as many as a uint64_t can have. Sizes and counts are natural numbers.
--
-- Not modelled: TLS and the sockets below src/net, the clocks and the log, the
-- start of the gRPC server and the channels of the clients, which are input and output. The
-- connection is modelled by itself: the runner sees its callbacks as events.
pub mod Common
pub mod Book
pub mod Fixed
pub mod Ladder
pub mod Analytics
pub mod Json
pub mod Venues
pub mod Slot
pub mod Retry
pub mod Ring
pub mod Runner
pub mod Pipeline
pub mod Url
pub mod Client
pub mod HttpClient
pub mod Flags
pub mod Startup
pub mod WsClient
pub mod Engine
pub mod Service
mod Examples
