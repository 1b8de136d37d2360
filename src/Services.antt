-- ===== src/Services.antt =====
-- The cores of the microservices, services/*/index.js: the state that each keeps and its operations.
pub mod Http
pub mod Ports
pub mod Forward
pub mod Monitoring
pub mod Messaging
pub mod Routing
pub mod Gateway
pub mod Discovery
pub mod Trust
pub mod Registration
pub mod Metadata
pub mod Identity
pub mod Consensus
pub mod Logging
pub mod Event
pub mod Scheduler
pub mod Storage
pub mod Rules
pub mod Analytics
pub mod Replication
pub mod Peers
pub mod Oldest
pub mod State
pub mod Queue
pub mod Directory
