-- ===== src/Tests/Opening.antt =====
-- A manager of chromatic_imap/chromatic_imap_mgr.cpp from its constructor on.
use chromatic_imap_cplus_plu.Prelude.{ℕ, ◌≡◌, refl, true, false, [], some}
use chromatic_imap_cplus_plu.Prelude.Int.{negsuc}
use chromatic_imap_cplus_plu.Text.{codes}
use chromatic_imap_cplus_plu.Handler.Types.{Service}
use chromatic_imap_cplus_plu.Manager.Types.{Manager}
use chromatic_imap_cplus_plu.Manager.Fetch.Answer.{on_fetch}
use chromatic_imap_cplus_plu.Manager.Service.{serve_manager}
use chromatic_imap_cplus_plu.Manager.Service.FetchMap.{left}
use chromatic_imap_cplus_plu.Manager.Service.FetchMap.Invariant.{Refuses}
use chromatic_imap_cplus_plu.Manager.Opening.{Host, connected, construct, make_directory}
use chromatic_imap_cplus_plu.Manager.Opening.Refusing.{fresh, served, used_uids, Reached-Refuses}
use chromatic_imap_cplus_plu.Tests.Manager.{world_test, mime_test, undefined_test, bob}

-- A database that answers, and a system on which every path is a directory.
abbrev host_test : Host ℕ
host_test = record {
  connect = λ dsn user password d. connected d;
  disconnect = λ d. (false, d);
  stat = λ path d. some 16_895;
  mkdir = λ path mode d. (negsuc 0, d);
}

abbrev opened : Manager ℕ
opened = (construct world_test host_test (codes "db") (codes "/store") bob).manager

abbrev after_select : Manager ℕ
after_select = left (
    serve_manager world_test mime_test undefined_test Service.on_select (codes "INBOX") []
      (record (left (
        serve_manager world_test mime_test undefined_test Service.on_login (codes "bob x") []
          opened)) { uids = true }))

Reached-Refuses_example :
    Refuses world_test mime_test (on_fetch world_test mime_test (codes "1 (flags)") [] after_select)
Reached-Refuses_example =
    Reached-Refuses world_test host_test mime_test undefined_test after_select (codes "1 (flags)")
      [] (λ m. refl)
      (served Service.on_select (codes "INBOX") [] (
        used_uids true
          (served Service.on_login (codes "bob x") [] (fresh (codes "db") (codes "/store") bob))))

-- The path exists: nothing is made.
make_directory_test : make_directory world_test host_test (codes "/store") 0 ≡ (false, 0)
unfolding make_directory
make_directory_test = refl
