-- ===== src/Handler/Session/Refusal.antt =====
-- The tests of the connection state in the methods of chromatic_imap/chromatic_imap_handler.cpp.
use chromatic_imap_cplus_plu.Handler.Output.{check_connection_state}
use chromatic_imap_cplus_plu.Handler.Commands.Messages.{
  on_fetch, on_copy, on_search, on_expunge, on_store,
}
use chromatic_imap_cplus_plu.Handler.Commands.Mailboxes.{
  on_unsubscribe, on_lsub, on_rename, on_delete, on_select, on_close, on_subscribe, on_list,
  on_examine, on_create,
}
use chromatic_imap_cplus_plu.Prelude.Int.{pos}
use chromatic_imap_cplus_plu.Handler.Dispatch.{run_keyword, Keyword}
use chromatic_imap_cplus_plu.Handler.Session.{
  arith, done, check_connection_state, Str, on_select, on_search, on_create, on_list, Bool,
  on_rename, on_unsubscribe, on_subscribe, on_store, on_lsub, on_fetch, on_expunge, on_close,
  on_delete, on_examine, on_copy, States,
}
use chromatic_imap_cplus_plu.Prelude.{◌&&◌, ◌≡◌, true, false}
use chromatic_imap_cplus_plu.Handler.Types.{
  invalid_state, not_authenticated, Command, PacketError, Server, authenticated, selected, Handler,
}

-- What a command needs: nothing, a login, or a selected mailbox too.
pub data Need : Type 0 where
  nothing needs_login needs_mailbox : Need

abbrev pub need : Keyword → Need
need Keyword.create = needs_login
need Keyword.select = needs_login
need Keyword.examine = needs_login
need Keyword.list = needs_login
need Keyword.delete = needs_login
need Keyword.rename = needs_login
need Keyword.lsub = needs_login
need Keyword.subscribe = needs_login
need Keyword.unsubscribe = needs_login
need Keyword.search = needs_login
need Keyword.copy = needs_mailbox
need Keyword.fetch = needs_mailbox
need Keyword.store = needs_mailbox
need Keyword.close = needs_mailbox
need Keyword.expunge = needs_mailbox
need _ = nothing

abbrev pub meets : Need → States → Bool
meets nothing s = true
meets needs_login s = s authenticated
meets needs_mailbox s = s authenticated && s selected

-- The error of a refusal, and the command that is noted before it.
abbrev pub refusal : Keyword → PacketError
refusal Keyword.create = not_authenticated
refusal Keyword.delete = not_authenticated
refusal Keyword.subscribe = not_authenticated
refusal Keyword.unsubscribe = not_authenticated
refusal _ = invalid_state

abbrev pub noted : Keyword → Command → Command
noted Keyword.select old = Command.select
noted Keyword.examine old = Command.examine
noted Keyword.list old = Command.list
noted Keyword.rename old = Command.rename
noted Keyword.lsub old = Command.lsub
noted Keyword.search old = Command.searching
noted Keyword.copy old = Command.copy
noted Keyword.fetch old = Command.fetch
noted Keyword.store old = Command.store
noted Keyword.close old = Command.closing
noted Keyword.expunge old = Command.expunge
noted _ old = old

module _ (server : Server) where
  open server use {State}

  create-refused :
      (params : Str) (h : Handler State)
      → meets (need Keyword.create) h.states ≡ false
      → on_create server params h
        ≡ done
            (record h { command = noted Keyword.create h.command; error = refusal Keyword.create })
            (pos 0)
  unfolding on_create check_connection_state
  create-refused params h e = ground arith

  select-refused :
      (params : Str) (h : Handler State)
      → meets (need Keyword.select) h.states ≡ false
      → on_select server params h
        ≡ done
            (record h { command = noted Keyword.select h.command; error = refusal Keyword.select })
            (pos 0)
  unfolding on_select check_connection_state
  select-refused params h e = ground arith

  examine-refused :
      (params : Str) (h : Handler State)
      → meets (need Keyword.examine) h.states ≡ false
      → on_examine server params h
        ≡ done
            (record h {
              command = noted Keyword.examine h.command;
              error = refusal Keyword.examine;
            })
            (pos 0)
  unfolding on_examine check_connection_state
  examine-refused params h e = ground arith

  list-refused :
      (params : Str) (h : Handler State)
      → meets (need Keyword.list) h.states ≡ false
      → on_list server params h
        ≡ done
            (record h { command = noted Keyword.list h.command; error = refusal Keyword.list })
            (pos 0)
  unfolding on_list check_connection_state
  list-refused params h e = ground arith

  delete-refused :
      (params : Str) (h : Handler State)
      → meets (need Keyword.delete) h.states ≡ false
      → on_delete server params h
        ≡ done
            (record h { command = noted Keyword.delete h.command; error = refusal Keyword.delete })
            (pos 0)
  unfolding on_delete check_connection_state
  delete-refused params h e = ground arith

  rename-refused :
      (params : Str) (h : Handler State)
      → meets (need Keyword.rename) h.states ≡ false
      → on_rename server params h
        ≡ done
            (record h { command = noted Keyword.rename h.command; error = refusal Keyword.rename })
            (pos 0)
  unfolding on_rename check_connection_state
  rename-refused params h e = ground arith

  lsub-refused :
      (params : Str) (h : Handler State)
      → meets (need Keyword.lsub) h.states ≡ false
      → on_lsub server params h
        ≡ done
            (record h { command = noted Keyword.lsub h.command; error = refusal Keyword.lsub })
            (pos 0)
  unfolding on_lsub check_connection_state
  lsub-refused params h e = ground arith

  subscribe-refused :
      (params : Str) (h : Handler State)
      → meets (need Keyword.subscribe) h.states ≡ false
      → on_subscribe server params h
        ≡ done
            (record h {
              command = noted Keyword.subscribe h.command;
              error = refusal Keyword.subscribe;
            })
            (pos 0)
  unfolding on_subscribe check_connection_state
  subscribe-refused params h e = ground arith

  unsubscribe-refused :
      (params : Str) (h : Handler State)
      → meets (need Keyword.unsubscribe) h.states ≡ false
      → on_unsubscribe server params h
        ≡ done
            (record h {
              command = noted Keyword.unsubscribe h.command;
              error = refusal Keyword.unsubscribe;
            })
            (pos 0)
  unfolding on_unsubscribe check_connection_state
  unsubscribe-refused params h e = ground arith

  search-refused :
      (params : Str) (h : Handler State)
      → meets (need Keyword.search) h.states ≡ false
      → on_search server params h
        ≡ done
            (record h { command = noted Keyword.search h.command; error = refusal Keyword.search })
            (pos 0)
  unfolding on_search check_connection_state
  search-refused params h e = ground arith

  copy-refused :
      (params : Str) (h : Handler State)
      → meets (need Keyword.copy) h.states ≡ false
      → on_copy server params h
        ≡ done
            (record h { command = noted Keyword.copy h.command; error = refusal Keyword.copy })
            (pos 0)
  unfolding on_copy check_connection_state
  copy-refused params h e = ground arith

  pub fetch-refused :
      (params : Str) (h : Handler State)
      → meets (need Keyword.fetch) h.states ≡ false
      → on_fetch server params h
        ≡ done
            (record h { command = noted Keyword.fetch h.command; error = refusal Keyword.fetch })
            (pos 0)
  unfolding on_fetch check_connection_state
  fetch-refused params h e = ground arith

  store-refused :
      (params : Str) (h : Handler State)
      → meets (need Keyword.store) h.states ≡ false
      → on_store server params h
        ≡ done
            (record h { command = noted Keyword.store h.command; error = refusal Keyword.store })
            (pos 0)
  unfolding on_store check_connection_state
  store-refused params h e = ground arith

  close-refused :
      (params : Str) (h : Handler State)
      → meets (need Keyword.close) h.states ≡ false
      → on_close server params h
        ≡ done
            (record h { command = noted Keyword.close h.command; error = refusal Keyword.close })
            (pos 0)
  unfolding on_close check_connection_state
  close-refused params h e = ground arith

  expunge-refused :
      (params : Str) (h : Handler State)
      → meets (need Keyword.expunge) h.states ≡ false
      → on_expunge server params h
        ≡ done
            (record h {
              command = noted Keyword.expunge h.command;
              error = refusal Keyword.expunge;
            })
            (pos 0)
  unfolding on_expunge check_connection_state
  expunge-refused params h e = ground arith

  -- A command whose need is not met only notes itself and sets the error: the manager is not asked, and
  -- nothing is written, sent or changed otherwise.
  pub run_keyword-refused :
      (k : Keyword) (params : Str) (h : Handler State)
      → meets (need k) h.states ≡ false
      → run_keyword server k params h
        ≡ done (record h { command = noted k h.command; error = refusal k }) (pos 0)
  unfolding run_keyword
  run_keyword-refused Keyword.login params h e = ground arith
  run_keyword-refused Keyword.logout params h e = ground arith
  run_keyword-refused Keyword.create params h e = create-refused params h e
  run_keyword-refused Keyword.select params h e = select-refused params h e
  run_keyword-refused Keyword.examine params h e = examine-refused params h e
  run_keyword-refused Keyword.list params h e = list-refused params h e
  run_keyword-refused Keyword.delete params h e = delete-refused params h e
  run_keyword-refused Keyword.rename params h e = rename-refused params h e
  run_keyword-refused Keyword.lsub params h e = lsub-refused params h e
  run_keyword-refused Keyword.subscribe params h e = subscribe-refused params h e
  run_keyword-refused Keyword.unsubscribe params h e = unsubscribe-refused params h e
  run_keyword-refused Keyword.noop params h e = ground arith
  run_keyword-refused Keyword.check params h e = ground arith
  run_keyword-refused Keyword.capability params h e = ground arith
  run_keyword-refused Keyword.search params h e = search-refused params h e
  run_keyword-refused Keyword.copy params h e = copy-refused params h e
  run_keyword-refused Keyword.fetch params h e = fetch-refused params h e
  run_keyword-refused Keyword.store params h e = store-refused params h e
  run_keyword-refused Keyword.uid params h e = ground arith
  run_keyword-refused Keyword.close params h e = close-refused params h e
  run_keyword-refused Keyword.expunge params h e = expunge-refused params h e
  run_keyword-refused Keyword.append params h e = ground arith
  run_keyword-refused Keyword.starttls params h e = ground arith
  run_keyword-refused Keyword.status params h e = ground arith
