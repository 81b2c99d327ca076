-- ===== src/Lib.antt =====
-- Verification of the Chromatic IMAP message server, a C++ server that keeps its mailboxes in a
-- database. A client's connection is served by a handler, which reads packets, parses them into
-- token, command and payload, finds the command's method in a map, tests the connection state, and
-- calls the mailbox manager; the manager writes its answer to the handler's stream, and the handler
-- flushes the stream to the client.
--
-- The files, and the code that each is about:
-- - Prelude (with Tests, Lists and Int): names and lemmas that all share.
-- - Text, Text/Decimal: std::string as a list of bytes, with find, substr and the <cctype> tests;
--   atoi as strtol cut to an int.
-- - Tokenizer, Tokenizer/Laws: safe_tokenize_t of include/generic.h. Its loop is recursion on fuel,
--   one more than the bytes of the text; each turn uses at least one byte, so that is enough.
-- - MessageManip: chromatic_imap/chromatic_imap_message_manip.cpp, every operation. Sequence and
--   Grammar are about the expansion of message sequences, Sorting, Intersection and Selection about
--   the choice of existing messages, MessageSet about the test for a message set. Ints are integers
--   without bound, but what atoi returns is cut to 32 bits.
-- - Base64 (with Bits and RoundTrip): base64_encode and base64_decode of
--   chromatic_imap/chromatic_imap_mgr.cpp, their loops over a buffer of three or four bytes as data
--   types for what is waiting.
-- - Flags, Flags/Laws: str_to_mbx_flags, mbx_flags_to_str, mbx_attributes_to_str and the change of
--   flags in store_flags, of the same file.
-- - Handler: chromatic_imap/chromatic_imap_handler.cpp, with the enumerations of
--   chromatic_imap/chromatic_types.h and the fields of chromatic_handler in
--   chromatic_imap/chromatic_imap.h. Handler/Types holds the state of a session and the manager as
--   the handler sees it: a record `Server` of its operations, each of which returns a Boolean or
--   raises chromatic_imap_mgr_error, and writes text. Handler/Strings, Output, Commands (Account,
--   Mailboxes, Messages), Parse, Dispatch and Process hold the methods in the order in which they
--   call one another; a method takes the handler and returns it changed, with its result or an
--   exception that it does not catch. `process` takes the pieces that recv returns as a list, and
--   returns those it has not read; no piece left stands for a failed or timed-out recv.
-- - Handler/Session: the connection states as an abstract machine, with the steps that each command
--   may take (Session), the proof that the methods take no others (Commands, Refines), what holds
--   in every session (Security), the run in which a client logs in (Login), the commands that are refused (Refusal), and UID (Uid).
-- - Manager: chromatic_imap/chromatic_imap_mgr.cpp, the manager behind the handler. Manager/Types holds
--   its state and the classes of chromatic_imap/chromatic_imap.h that it keeps, and the record `World`
--   of what it uses: the database (SQLAPI), whose state is a part of the manager's, the removal of a
--   file, boost::format and boost::regex_match, and what a variable holds that is read before it is
--   set. Database, Folders, Urls, Messages and Responses hold the helpers, Fetch (Requests, Mime,
--   Answer) the requests of FETCH with their names of chromatic_imap_strings/chromatic_strings.cpp,
--   the parts of a message over the mail library (CkMime, a parameter), and the answer; undefined
--   behaviour there is a result of its own. Commands (Account, Listing, Mailboxes, Messages) holds the
--   on_ methods, each of which returns a Boolean or raises, with the text it has written; Service
--   puts them together to the `Server` of the handler, and Opening is about how a manager comes to be.
-- - What is proved of the manager stands below the file it is about: Folders/Names and
--   Folders/Patterns, Messages/Numbering, Commands/Account/Login and Wire,
--   Commands/Messages/Replay, Expunge and Store, Service/FetchMap and Opening/Refusing.
-- - ThreadPool: chromatic_imap/chromatic_thread_pool.cpp, a step for each action of a thread; Steps
--   and Stopping are about how a pool comes to its end.
-- - Acceptor, Acceptor/Closing: chromatic_imap/chromatic_acceptor.cpp, the acceptor over the pool, from its
--   opening to its close.
-- - Envelope: chromatic_imap_envelope_lib/chromatic_imap_envelope.cpp, the envelope of a message, with the
--   turns of its loops over the recipients bounded by a number.
-- - BodyStructure: chromatic_imap_bodystructure/chromatic_imap_bodystructure.cpp, the types and character
--   sets of the parts of a message, which is a tree; Traversal is about what is written of it.
-- - Connection: the life of a connection, of chromatic_imap/chromatic_imap_handler.cpp, around `process`:
--   what the reactor, its timer, a thread of the pool and a thread of its own do with it. Ownership is
--   about who holds it, also when the timer runs out.
-- - Dictionary: chromatic_imap_strings/chromatic_strings.cpp with include/chromatic_strings.h, the names
--   that FETCH has for the parts of a message.
-- - Templates: the other templates of include/generic.h, for maps, pairs, tuples and durations.
-- - Search, Search/RoundTrip: chromatic_imap/chromatic_imap_search.cpp, the criteria of a SEARCH and the
--   translation between uids and message numbers.
-- - Authentication, Authentication/Peek: tlpi/tlpi_authentication_assist.cpp, users, groups and passwords,
--   and Authentication/Objects with the objects of tlpi/tlpi.h.
--   Credentials, Credentials/FileSystem: tlpi/tlpi_credentials.cpp, the ids of the process. The C library
--   is a parameter of both. Three turns are enough for the loop of `passwd_peek`, where it ends.
-- - LinkedList (with Chains, Appending, Unlinking and Removing): the singly linked list of
--   chromatic_algo/src, and in Double the doubly linked one, over a heap of nodes, with undefined
--   behaviour as a result of its own. Its loops have turns; one for each node is enough.
-- - Tests (Connection, Envelope, LinkedList, Messages, Manager, Opening, Regex, ThreadPool): runs at
--   concrete values.
--
-- Bounds: a piece that recv returns is shorter than the buffer (65536 bytes where the reactor calls,
-- BUFSIZ in a thread of its own), so that a NUL ends it; strings are shorter than npos; sends
-- succeed; a mailbox has fewer than 2 ^ 64 messages; a query of the database fails as a whole or gives
-- all of its rows; `getq` and `putq` do not fail; CkEmail counts the recipients in an int that is not
-- negative, and positions among them have 64 bits.
--
-- Not modelled: the DDS interface (generated, and a wrapper of the DDS library), the services and their
-- configurator (examples of ACE, and process start-up), and the older Windows server under ImapServer,
-- which this one replaces.
pub mod Prelude
pub mod Text
pub mod Tokenizer
pub mod Templates
pub mod MessageManip
pub mod Base64
pub mod Handler
pub mod Connection
pub mod Flags
pub mod Manager
pub mod ThreadPool
pub mod Acceptor
pub mod LinkedList
pub mod Authentication
pub mod BodyStructure
pub mod Credentials
pub mod Dictionary
pub mod Envelope
pub mod Search
pub mod Tests
