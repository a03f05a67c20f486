-- ===== src/Protocol.antt =====
-- protocol/: the link wire format, its writer, its byte-wise parser, and the link above a UART.
pub mod Wire
pub mod FrameWriter
pub mod FrameParser
pub mod Link
