-- ===== src/Manager/Commands.antt =====
-- The commands of `chromatic_imap_mgr`: its `on_*` methods. Each gives the text it writes to the stream.
pub mod Account
pub mod Listing
pub mod Mailboxes
pub mod Messages
