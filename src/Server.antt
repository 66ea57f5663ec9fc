-- ===== src/Server.antt =====
-- internal/server: the HTTP handlers. A handler is a function of the request's parts and of the
-- state that it uses; a reply is a status with a body.
pub mod Reply
pub mod Frames
pub mod ImagesApi
pub mod NetworksApi
pub mod Pending
pub mod Streams
pub mod Summary
pub mod Containers
pub mod Exec
pub mod Events
pub mod Router
