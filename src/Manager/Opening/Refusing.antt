-- ===== src/Manager/Opening/Refusing.antt =====
-- The managers of chromatic_imap/chromatic_imap_mgr.cpp that a session can have come to, and FETCH there.
use chromatic_imap_cplus_plu.Prelude.{◌≡◌, ◌∙◌, Bool, [], ◌++◌, arith}
use chromatic_imap_cplus_plu.Text.{Str}
use chromatic_imap_cplus_plu.Handler.Types.{Reply, Service}
use chromatic_imap_cplus_plu.Manager.Types.{World, Manager}
use chromatic_imap_cplus_plu.Manager.Fetch.Mime.{Mime}
use chromatic_imap_cplus_plu.Manager.Fetch.Answer.{on_fetch}
use chromatic_imap_cplus_plu.Manager.Service.{serve_manager}
use chromatic_imap_cplus_plu.Manager.Service.FetchMap.{Keeps, left}
use chromatic_imap_cplus_plu.Manager.Service.FetchMap.Invariant.{
  Refuses, on_fetch-Refuses, serve_manager-fetch_map,
}
use chromatic_imap_cplus_plu.Manager.Opening.{Host, construct, initial, open_server}

module _ (w : World) (host : Host w.Store) (library : Mime w.Store)
    (undefined : Manager w.Store → Reply (Manager w.Store)) where
  open w use {Store}

  -- A manager that has been constructed, and has run some commands of its handler.
  pub data Reached : Manager Store → Type 0 where
    fresh :
        (dbserver proxystore : Str) (blank : Manager Store)
        → Reached (construct w host dbserver proxystore blank).manager
    served :
        {m : Manager Store} (service : Service) (params fmt : Str)
        → Reached m
        → Reached (left (serve_manager w library undefined service params fmt m))
    used_uids : {m : Manager Store} (b : Bool) → Reached m → Reached (record m { uids = b })
    appended :
        {m : Manager Store} (text : Str)
        → Reached m
        → Reached
            (record m { append_rec = record m.append_rec { stream = m.append_rec.stream ++ text } })

  construct-fetch_map :
      (dbserver proxystore : Str) (blank : Manager Store)
      → (construct w host dbserver proxystore blank).manager.fetch_map ≡ []
  unfolding construct open_server initial
  construct-fetch_map dbserver proxystore blank = ground arith

  Reached-fetch_map : (m : Manager Store) → Keeps w undefined → Reached m → m.fetch_map ≡ []
  Reached-fetch_map _ keeps (fresh dbserver proxystore blank) =
      construct-fetch_map dbserver proxystore blank
  Reached-fetch_map _ keeps (served {m} service params fmt r) =
      serve_manager-fetch_map w library undefined keeps service params fmt m
      ∙ Reached-fetch_map m keeps r
  Reached-fetch_map _ keeps (used_uids {m} b r) = Reached-fetch_map m keeps r
  Reached-fetch_map _ keeps (appended {m} text r) = Reached-fetch_map m keeps r

  -- Whatever commands a session has run since its manager was constructed, no FETCH writes anything: it
  -- raises one of its two errors, finds no message to show, or is not defined. What is undefined is
  -- taken to leave the table of the keywords alone.
  pub Reached-Refuses :
      (m : Manager Store) (params fmt : Str)
      → Keeps w undefined
      → Reached m
      → Refuses w library (on_fetch w library params fmt m)
  Reached-Refuses m params fmt keeps r =
      on_fetch-Refuses w library params fmt m (Reached-fetch_map m keeps r)
