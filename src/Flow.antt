-- ===== src/Flow.antt =====
-- src/core/flows: a flow is a computation over the database that ends in a value or in what it
-- throws. The state holds the database, the calls whose outcome the flow does not await
-- (`void …catch(() => {})`: audit records and blocklist writes, on connections of their own), how
-- many random values have been drawn, and the Redis store, which no transaction takes back.
pub mod Errors
pub mod Monad
pub mod World
pub mod Executor
pub mod Keeps
