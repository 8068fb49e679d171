-- ===== src/Tcp.antt =====
-- The TCP stack of EXP18-TCP_Stack_4/code/18-tcp_stack, one socket at a time.
pub mod Seq
pub mod Sock
pub mod Output
pub mod Reno
pub mod Receive
pub mod Conn
pub mod Stack
pub mod Samples
mod Tests
