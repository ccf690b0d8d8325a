-- ===== src/Http.antt =====
-- lib/HttpServer/src/SNFHttpServer.
pub mod Request
pub mod RequestParser
pub mod Response
pub mod Server
