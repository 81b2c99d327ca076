-- ===== src/Manager/Fetch.antt =====
-- FETCH of chromatic_imap/chromatic_imap_mgr.cpp: the list of requests, the parts of a message that the
-- mail library gives, and the answer for a message.
pub mod Requests
pub mod Mime
pub mod Answer
