-- ===== src/Manager/Service.antt =====
-- `chromatic_imap_mgr` as the `chromatic_imap_message_server_protocol` that the handler calls.
pub mod FetchMap
use chromatic_imap_cplus_plu.Prelude.{List, [], ◌++◌, none, some}
use chromatic_imap_cplus_plu.Text.{Str}
use chromatic_imap_cplus_plu.Handler.Types.{Reply, Server, Service}
use chromatic_imap_cplus_plu.Manager.Types.{World, Manager}
use chromatic_imap_cplus_plu.Manager.Fetch.Mime.{Mime}
use chromatic_imap_cplus_plu.Manager.Fetch.Answer
use chromatic_imap_cplus_plu.Manager.Commands.Account
use chromatic_imap_cplus_plu.Manager.Commands.Listing
use chromatic_imap_cplus_plu.Manager.Commands.Mailboxes
use chromatic_imap_cplus_plu.Manager.Commands.Messages

-- `undefined` stands for what a FETCH with undefined behaviour does.
module _ (w : World) (library : Mime w.Store)
    (undefined : Manager w.Store → Reply (Manager w.Store)) where
  open w use {Store}

  unfoldable pub fetch_or_undefined : Str → Str → Manager Store → Reply (Manager Store)
  unfolding Answer.on_fetch
  fetch_or_undefined params fmt m = elim (Answer.on_fetch w library params fmt m) [
    | none ↦ undefined m
    | some r ↦ r
  ]

  unfoldable pub serve_manager : Service → Str → Str → Manager Store → Reply (Manager Store)
  unfolding Account.on_login Account.on_logout Account.on_noop Account.on_capability Listing.on_list
      Listing.on_lsub Listing.on_status Mailboxes.on_create Mailboxes.on_select Mailboxes.on_delete
      Mailboxes.on_rename Mailboxes.on_subscribe Mailboxes.on_unsubscribe Mailboxes.on_examine
      Mailboxes.on_append Messages.on_search Messages.on_copy Messages.on_store Messages.on_close
      Messages.on_expunge fetch_or_undefined
  serve_manager Service.on_login = Account.on_login w
  serve_manager Service.on_logout = Account.on_logout w
  serve_manager Service.on_list = Listing.on_list w
  serve_manager Service.on_create = Mailboxes.on_create w
  serve_manager Service.on_select = Mailboxes.on_select w
  serve_manager Service.on_delete = Mailboxes.on_delete w
  serve_manager Service.on_rename = Mailboxes.on_rename w
  serve_manager Service.on_lsub = Listing.on_lsub w
  serve_manager Service.on_status = Listing.on_status w
  serve_manager Service.on_subscribe = Mailboxes.on_subscribe w
  serve_manager Service.on_unsubscribe = Mailboxes.on_unsubscribe w
  serve_manager Service.on_examine = Mailboxes.on_examine w
  serve_manager Service.on_noop = Account.on_noop w
  serve_manager Service.on_capability = Account.on_capability w
  serve_manager Service.on_search = Messages.on_search w
  serve_manager Service.on_copy = Messages.on_copy w
  serve_manager Service.on_fetch = fetch_or_undefined
  serve_manager Service.on_store = Messages.on_store w
  serve_manager Service.on_close = Messages.on_close w
  serve_manager Service.on_expunge = Messages.on_expunge w
  serve_manager Service.on_append = Mailboxes.on_append w

  abbrev pub manager_server : Server
  manager_server = record {
    State = Manager Store;
    call = serve_manager;
    uids = λ b m. record m { uids = b };
    append_text = λ text m. record m {
      append_rec = record m.append_rec { stream = m.append_rec.stream ++ text };
    };
  }
