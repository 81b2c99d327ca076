-- ===== src/Handler.antt =====
-- chromatic_imap/chromatic_imap_handler.cpp: the session with one client. It reads packets, keeps
-- the state of the connection, and calls the manager behind it through an interface.
pub mod Types
pub mod Strings
pub mod Output
pub mod Commands
pub mod Parse
pub mod Dispatch
pub mod Process
pub mod Session
