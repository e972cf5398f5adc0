-- ===== src/Tests.antt =====
-- Concrete platforms and transports, on which the theorems are applied and the code is run.
mod Systems
mod Sockets
mod Connections
mod Sessions
mod Names
mod Polling
mod Datagrams
mod Secure
mod Queues
mod Collections
