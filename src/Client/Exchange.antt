-- ===== src/Client/Exchange.antt =====
-- What a client sends (client/*.c) read by the server (server/counter.cpp, server/info.cpp), and the
-- server's answers read by the client.
pub mod Get
pub mod Devices
pub mod Create
pub mod Commands
