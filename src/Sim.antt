-- ===== src/Sim.antt =====
-- sim/: the models of the machine that the host build runs the firmware against.
pub mod Lid
pub mod Transport
pub mod Plant
pub mod Board
pub mod Watchdog
pub mod ControlServer
pub mod Sockets
pub mod SocketTransport
