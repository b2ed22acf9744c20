-- ===== src/Examples.antt =====
-- The properties on concrete data.
pub mod Data
pub mod Codecs
pub mod Chains
pub mod Nodes
pub mod Queues
pub mod Network
pub mod Requests
pub mod Serving
pub mod Launching
pub mod Relaying
pub mod Sending
