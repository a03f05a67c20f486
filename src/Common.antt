-- ===== src/Common.antt =====
-- common/: status codes, the CRC, and the ring buffer that carries the simulated UART.
pub mod Status
pub mod Text
pub mod Crc16
pub mod RingBuffer
pub mod Floats
pub mod ParseNumber
pub mod Logging
