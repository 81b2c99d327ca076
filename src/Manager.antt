-- ===== src/Manager.antt =====
-- chromatic_imap/chromatic_imap_mgr.cpp: the mailbox manager of a session. It answers the commands
-- that the handler passes on, from a database and the list of messages of the selected mailbox.
pub mod Types
pub mod Database
pub mod Folders
pub mod Urls
pub mod Messages
pub mod Responses
pub mod Fetch
pub mod Commands
pub mod Service
pub mod Opening
