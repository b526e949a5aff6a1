-- ===== src/Kvs.antt =====
-- `KvsClient` and its connection, of src/kvs_client.rs.
pub mod Acks
pub mod Connection
pub mod Request
pub mod Client
pub mod AckStream
mod Runs
