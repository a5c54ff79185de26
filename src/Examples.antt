-- ===== src/Examples.antt =====
-- The theorems of the library at concrete inputs: a cache with one account, a table with two
-- nodes, and small stand-ins for the code of other crates.
mod Cache
mod Requests
mod Data
pub mod Crates
pub mod Table
mod Registry
mod Handlers
mod Sockets
mod Dispatching
mod Clients
mod Counting
mod Reads
mod Starting
mod Deciding
