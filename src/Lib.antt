-- ===== src/Lib.antt =====
-- KasirinAja, a point of sale for small shops: its backend, written in Go.
--
-- The parts and the files that model them:
--   backend/internal/domain/models.go: the records, field by field, in Domain and its modules. An
--     `int` and an `int64` are integers of Prelude/Int, with `add64`, `sub64` and `mul64`
--     wrapping as Go does; a `float64` is a type `F` with the operations of the class `Float64`;
--     a pointer that may be nil is an Option; a `time.Time` is a number of nanoseconds since the
--     zero time.
--   backend/internal/store/store.go: the errors, in Store, with the type `Action` of an
--     operation: it takes the state and returns a result, a value or an error, with the state it
--     leaves behind.
--   backend/internal/store/memory/memory.go: Memory. The state is Memory/State, with the pointers
--     that two maps share as indices into a heap. CreateCheckout is Memory/Checkout with the lots
--     in Memory/Lots; VoidTransaction is Memory/Sales; CreateRefund is Memory/Refunds; item
--     returns are Memory/Returns; shifts are Memory/Shifts; held carts are Memory/Carts;
--     suppliers and purchase orders are Memory/Procurement and Memory/Receiving; products, promos
--     and logs are Memory/Catalog; stock counts and manual lots are Memory/Inventory; users are
--     Memory/Users; the report of a day, the metrics and the training of the pairs are
--     Memory/Reports. Memory/Ledger is an abstract account of the units that a run of sales,
--     voids and refunds takes and gives.
--   backend/internal/service/service.go: Service, over the operations of Memory. Checkout is
--     Service/Checkout, with normalizeItems in Service/Items, calculatePromoDiscount in
--     Service/Promos and the payment rules in Service/Payments; VoidTransaction, Refund and
--     SyncOffline are Service/Sales; OpenShift and CloseShift are Service/Shifts; StockOpname is
--     Service/Opname; ProcessItemReturn is Service/Returns; held carts are Service/Carts; promos,
--     suppliers and purchase orders are Service/Admin; products are Service/Products; Recommend
--     is Service/Suggest; reports, the audit log and training are Service/Reports; lots received
--     by hand are Service/Lots; ReorderSuggestions is Service/Reorder; receipts and the cash
--     drawer are Service/Receipts; DetectOperationalAnomalies is Service/Alerts. The acting user
--     and the default store are a `Context` (Service/Context); the texts of encoding/json and of
--     time.Format are a parameter `Formats`, and those of dates, rates and base64 a parameter
--     `Texts` (Service/Texts); every theorem holds for all of them.
--   backend/internal/recommendation/engine.go, with the interface of
--     backend/internal/cache/cache.go: Engine. The cart, its key and the signals of the pairs are
--     Engine/Cart; the scores are Engine/Score; Recommend is Engine/Recommend.
--   backend/internal/httpapi/auth.go: Http/Auth, with the accounts, log-in, tokens and the
--     manager PIN. bcrypt, the JWT library and the store of the users are parameters, with what
--     they promise, in Http/Auth/Outside.
--   backend/internal/httpapi/httpapi.go: the limiter of attempts, in Http/Limiter; the CSRF
--     tokens, in Http/Csrf; the table of routes with their roles and the way to a handler, in
--     Http/Routes; the handlers of checkout, offline envelopes, voids, refunds, item returns and
--     the log-in, in Http/Handlers, those of shifts, held carts and stock counts, in
--     Http/Handlers/Floor, those of products, promos, suppliers, purchase orders and lots, in
--     Http/Handlers/Office, and those of reports, receipts and training, in
--     Http/Handlers/Reports. A body comes as the result of decodeJSON; the reading of numbers and
--     addresses and the HTML page of a report are parameters.
--   backend/cmd/server/main.go: the check of the configuration at the start, in Start.
--   Tests applies every theorem to a small shop, with an instance of the floats in Tests/Fixed.
--
-- How they correspond: an operation `CreateCheckout` is the function `create_checkout` with its
-- guards in the order of the code and the writes that came before an error kept. A map is an
-- association list (Prelude/Maps); where Go ranges over a map, whose order it leaves open, the
-- model takes the order of the list, and what is done with the entries, a sum or a sort by keys
-- that differ, does not depend on it, save for the order of the lines of a sale or a return and
-- which of several refused lines gives the error, which of equally confident articles is
-- suggested, the order of equal alerts and purchases, and the pairs of articles whose codes have
-- "->" in them. The sort of a list is an insertion sort by the comparison of the code, and no two
-- lots have one identifier. A lock is held for the whole of an operation, so an operation is one
-- step.
--
-- A text is a list of characters. `to_upper` and `to_lower` change the letters of ASCII only, where
-- Go's `ToUpper` and `ToLower` change those of all of Unicode.
--
-- From outside come the clock and new identifiers (`Env` of Domain/Clock), the libraries and texts
-- named above, SHA-1 and the cache of the engine (`Host` and `Cache` of Engine/Cart), and the
-- floats: theorems about amounts that are computed on floats assume `IsIeee` of Prelude/Float,
-- which says what IEEE 754 promises of integers up to 2 ^ 53 and of the order. Tests/Fixed has an
-- instance for which it holds.
--
-- Every loop of the code runs over a list. The one fuel is that of the decimal text of a number in
-- Prelude/Text: 20 digits, where an `int64` has 19.
--
-- Where an operation of the service calls several operations of the store, each takes its times
-- and identifiers from a later part of the `Env` (`later`), so that no two of them get the same.
--
-- Not modelled: the store on PostgreSQL, whose behaviour is that of its SQL; the handlers of
-- health, CSRF tokens, cashiers and suggestions, which call one operation each; JSON, with the
-- CORS headers, the limit on a body and the log of withMiddleware; the Redis cache, random
-- identifiers, the environment variables and the HTTP server, which are input and output; the
-- sample data of `NewSeeded`; the listings of the service that only call the store; the frontend.
pub mod Prelude
pub mod Domain
pub mod Store
pub mod Memory
pub mod Service
pub mod Http
pub mod Start
pub mod Engine
pub mod Tests
