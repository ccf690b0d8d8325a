-- ===== src/Network.antt =====
-- lib/Network/src/SNFNetwork.
pub mod TcpSocket
