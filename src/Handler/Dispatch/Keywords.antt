-- ===== src/Handler/Dispatch/Keywords.antt =====
-- `perform` of chromatic_imap/chromatic_imap_handler.cpp on whole command lines.
use chromatic_imap_cplus_plu.Handler.Parse.{const_max_token_length}
use chromatic_imap_cplus_plu.Handler.Parse.RoundTrip.{
  parse_command-print, print_command-nonempty, print_command, IsLine, printed_parts,
}
use chromatic_imap_cplus_plu.Handler.Strings.Laws.{Without}
use chromatic_imap_cplus_plu.Handler.Dispatch.{
  payload_of, run_keyword, parse_command, lcase, reset_uid, dispatch, codes, command_map,
  perform_parts, Handler, find_command, perform, perform_parsed, Str, Keyword,
}
use chromatic_imap_cplus_plu.Handler.Types.{token_part, no_packet_error, Server}
use chromatic_imap_cplus_plu.Prelude.{length, ◌≢◌, ◌≡◌, refl, ◌∙◌, [], ◌∷◌, some, none, Option, ◌≤◌}

abbrev pub keyword_text : Keyword → Str
keyword_text Keyword.login = codes "login"
keyword_text Keyword.logout = codes "logout"
keyword_text Keyword.create = codes "create"
keyword_text Keyword.select = codes "select"
keyword_text Keyword.examine = codes "examine"
keyword_text Keyword.list = codes "list"
keyword_text Keyword.delete = codes "delete"
keyword_text Keyword.rename = codes "rename"
keyword_text Keyword.lsub = codes "lsub"
keyword_text Keyword.subscribe = codes "subscribe"
keyword_text Keyword.unsubscribe = codes "unsubscribe"
keyword_text Keyword.noop = codes "noop"
keyword_text Keyword.check = codes "check"
keyword_text Keyword.capability = codes "capability"
keyword_text Keyword.search = codes "search"
keyword_text Keyword.copy = codes "copy"
keyword_text Keyword.fetch = codes "fetch"
keyword_text Keyword.store = codes "store"
keyword_text Keyword.uid = codes "uid"
keyword_text Keyword.close = codes "close"
keyword_text Keyword.expunge = codes "expunge"
keyword_text Keyword.append = codes "append"
keyword_text Keyword.starttls = codes "starttls"
keyword_text Keyword.status = codes "status"

find_command-keyword : (k : Keyword) → find_command (keyword_text k) command_map ≡ some (some k)
find_command-keyword Keyword.login = refl
find_command-keyword Keyword.logout = refl
find_command-keyword Keyword.create = refl
find_command-keyword Keyword.select = refl
find_command-keyword Keyword.examine = refl
find_command-keyword Keyword.list = refl
find_command-keyword Keyword.delete = refl
find_command-keyword Keyword.rename = refl
find_command-keyword Keyword.lsub = refl
find_command-keyword Keyword.subscribe = refl
find_command-keyword Keyword.unsubscribe = refl
find_command-keyword Keyword.noop = refl
find_command-keyword Keyword.check = refl
find_command-keyword Keyword.capability = refl
find_command-keyword Keyword.search = refl
find_command-keyword Keyword.copy = refl
find_command-keyword Keyword.fetch = refl
find_command-keyword Keyword.store = refl
find_command-keyword Keyword.uid = refl
find_command-keyword Keyword.close = refl
find_command-keyword Keyword.expunge = refl
find_command-keyword Keyword.append = refl
find_command-keyword Keyword.starttls = refl
find_command-keyword Keyword.status = refl

module _ (server : Server) where
  open server use {State}

  -- What a command line leaves in the handler before its method runs.
  abbrev pub received : Str → Str → Handler State → Handler State
  received token word h =
      reset_uid server (record h { token = token; command_text = word; error = no_packet_error })

  perform_parsed-print :
      (k : Keyword) (token word : Str) (payload : Option Str) (h : Handler State)
      → lcase word ≡ keyword_text k
      → perform_parsed server (
        record h { token = token; command_text = word; error = no_packet_error },
        printed_parts word payload ((token_part, token) ∷ []),
      )
        ≡ run_keyword server k (payload_of server payload) (received token word h)
  unfolding perform_parsed perform_parts dispatch
  perform_parsed-print k token word none h e = rw (e, find_command-keyword k) refl
  perform_parsed-print k token word (some payload) h e = rw (e, find_command-keyword k) refl

  perform-parsed :
      (packet : Str) (h : Handler State)
      → packet ≢ []
      → perform server packet h ≡ perform_parsed server (parse_command packet [] h)
  unfolding perform
  perform-parsed [] h e = elim (e refl) [ ]
  perform-parsed (c ∷ packet) h e = refl

  -- A command line whose word is the name of a command, in any case of its letters, runs the method of
  -- that command on the payload, with the token stored, the error cleared and UID off. The token and
  -- the word are without a space, the token of at most 10 bytes, the payload without a line feed.
  pub perform-print :
      (k : Keyword) (token word : Str) (payload : Option Str) (h : Handler State)
      → Without 32 token
      → length token ≤ const_max_token_length
      → Without 32 word
      → IsLine payload
      → lcase word ≡ keyword_text k
      → perform server (print_command token word payload) h
        ≡ run_keyword server k (payload_of server payload) (received token word h)
  perform-print k token word payload h t short w l e =
      perform-parsed (print_command token word payload) h
        (print_command-nonempty token word payload)
      ∙ rw (parse_command-print token word payload h t short w l)
          (perform_parsed-print k token word payload h e)
