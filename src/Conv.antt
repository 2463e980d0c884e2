-- ===== src/Conv.antt =====
-- conv_ftl.c, conv_ftl.h: the page-mapped FTL of a conventional drive, with its lines, its write
-- pointers, garbage collection and the handlers of its commands.
pub mod State
pub mod Tables
pub mod Lines
pub mod Pages
pub mod Collect
pub mod Part
pub mod Read
pub mod Write
pub mod Namespace
