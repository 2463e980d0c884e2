-- ===== src/Zns.antt =====
-- The zoned namespace: zns_ftl.c, zns_ftl.h, zns_mgmt_send.c, zns_mgmt_recv.c, zns_read_write.c.
pub mod State
pub mod Manage
pub mod Resources
pub mod Request
pub mod Placement
pub mod Write
pub mod Zrwa
pub mod Read
pub mod Report
pub mod Dispatch
