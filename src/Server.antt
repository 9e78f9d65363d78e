-- ===== src/Server.antt =====
-- The HTTP interface of package server: the controllers of server/db_service.go, the routes and the
-- authentication of server/api.go. gin (routing, reading of requests, binding of JSON), bson and the
-- statistics of the machine are parameters.
pub mod Library
pub mod Controllers
pub mod Routes
pub mod Access
pub mod Groups
pub mod Trip
pub mod Removal
pub mod Start
