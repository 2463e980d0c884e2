-- ===== src/Worker.antt =====
-- io.c: the queues of the I/O workers, the submission and completion queues, and the transfer of data.
pub mod State
pub mod Queue
pub mod Doorbell
pub mod Prp
pub mod Run
