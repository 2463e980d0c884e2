-- ===== src/Ssd.antt =====
-- ssd.c and ssd.h: the configuration, the parameters computed from it, the physical layout, and
-- the time that a NAND command, a PCIe transfer and the write buffer take.
pub mod Config
pub mod Params
pub mod Layout
pub mod Timing
