-- ===== src/Network.antt =====
-- Projet/Network: the part that talks to other nodes.
pub mod Clients
pub mod Discovery
pub mod Receive
pub mod Send
pub mod Start
pub mod Listing
pub mod Listen
