-- ===== src/Aio.antt =====
-- The coroutines of an asynchronous agent, in iams/aio.
pub mod Channels
pub mod Connection
pub mod Retry
pub mod Zeebe
pub mod Events
pub mod Tcp
pub mod Opcua
