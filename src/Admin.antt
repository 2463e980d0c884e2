-- ===== src/Admin.antt =====
-- admin.c: the admin queue, the registers (pci.c), the dispatch over the doorbells and the layout of the
-- namespaces (main.c).
pub mod State
pub mod Queues
pub mod Posted
pub mod Identify
pub mod Run
pub mod Bars
pub mod Dispatch
pub mod Layout
