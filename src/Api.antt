-- ===== src/Api.antt =====
-- internal/api: the HTTP routes of the daemon, and the requests that its clients send.
pub mod Routes
pub mod Requests
pub mod Routing
pub mod Text
pub mod Stream
pub mod Streaming
pub mod Carrying
pub mod Ending
pub mod Reading
pub mod Taking
pub mod Receiving
pub mod Printing
pub mod Moving
pub mod Concluding
