-- ===== src/Manager/Opening.antt =====
-- How a manager comes to be and goes, and its helpers that ask the system: chromatic_imap/chromatic_imap_mgr.cpp,
-- the constructor, the destructor, open_server, deinit, read_params, make_directory, time_zone_info. What
-- they use of SQLAPI and of the C library is a parameter.
pub mod Refusing
use chromatic_imap_cplus_plu.Prelude.{
  ℕ, ◌≡◌, refl, ◌∙◌, ap, Bool, true, false, ◌==◌, ◌%◌, Bool-cases, inl, inr, List, [], ◌∷◌, ◌++◌,
  Option, none, some, if◌then◌else◌, arith,
}
use chromatic_imap_cplus_plu.Prelude.Int.{ℤ, pos, negsuc, eqb_ℤ}
use chromatic_imap_cplus_plu.Text.{Str, codes}
use chromatic_imap_cplus_plu.Manager.Types.{World, Manager, clear_info, new_append_record}

-- SAConnection::Connect, which may raise an SAException or another exception.
pub data Connecting (D : Type 0) : Type 0 where
  connected : D → Connecting D
  sa_exception : Str → D → Connecting D
  other_exception : D → Connecting D

-- `disconnect` tells whether it raises; `stat` gives the st_mode, or nothing where it fails.
pub record Host (D : Type 0) : Type 0 where
  pub connect : Str → Str → Str → D → Connecting D
  pub disconnect : D → Bool × D
  pub stat : Str → D → Option ℕ
  pub mkdir : Str → ℕ → D → ℤ × D

-- The manager with its members m_strDbServer, m_strDsn and m_bConnected.
pub record Opened (D : Type 0) : Type 0 where
  pub manager : Manager D
  pub db_server : Str
  pub dsn : Str
  pub is_connected : Bool

-- A method returns, or raises a chromatic_imap_mgr_error of level lmlCritical.
pub data Opening (D : Type 0) : Type 0 where
  opening : Bool → Opened D → Opening D
  critical : Str → Opened D → Opening D

module _ {D : Type 0} where
  abbrev pub set_db : D → Opened D → Opened D
  set_db d o = record o { manager = record o.manager { db = d } }

  -- read_params, of which all but the return is a comment.
  unfoldable pub read_params : Opened D → Bool × Opened D
  read_params o = (true, o)

  -- The manager before the body of the constructor. `blank` has what a member holds that nothing
  -- sets: m_bUseUid, m_dwMaxUid and what the connection is before it connects.
  unfoldable pub initial : Str → Str → Manager D → Opened D
  initial dbserver proxystore blank = record {
    manager = record {
      db = blank.db;
      user = [];
      user_domain = [];
      proxy_store = proxystore;
      messages = [];
      info = clear_info;
      append_rec = new_append_record;
      max_uid = blank.max_uid;
      close_expunge = false;
      uids = blank.uids;
      fetch_map = [];
    };
    db_server = dbserver;
    dsn = [];
    is_connected = false;
  }

abbrev pub driver : Str
driver = codes "Driver={MySQL ODBC 5.1 Driver};"

abbrev pub connection_string : Str → Str
connection_string server =
    driver
    ++ codes "Server="
    ++ server
    ++ codes ";"
    ++ codes "Port=3306;"
    ++ codes "Option=131072;"
    ++ codes "Stmt=;"
    ++ codes "Database=oemo;"
    ++ codes "Uid=overtone;"
    ++ codes "Pwd=oemo"

-- S_IRWXU | S_IRWXG | S_IRWXO
abbrev pub rwx : ℕ
rwx = 511

module _ (w : World) (host : Host w.Store) where
  open w use {Store, rollback}

  -- The loop that fills m_fetchMap is a comment. Nothing in the block raises an error of the manager.
  unfoldable pub open_server : Opened Store → Opening Store
  open_server o =
      let o' = record o { dsn = connection_string o.db_server } in
      elim (host.connect o'.dsn (codes "overtone") (codes "oemo") o'.manager.db) [
        | connected d ↦ opening true (set_db d o')
        | sa_exception what d ↦
            let r = rollback d in
            if r.0 then critical what (set_db r.1 o') else opening true (set_db r.1 o')
        | other_exception d ↦
            critical (codes "Unspecified error in opening server.....") (set_db d o')
      ]

  -- The constructor. It catches what `open_server` raises.
  unfoldable pub construct : Str → Str → Manager Store → Opened Store
  unfolding initial open_server read_params
  construct dbserver proxystore blank = elim (open_server (initial dbserver proxystore blank)) [
    | opening b o ↦ record (read_params o).1 { is_connected = true }
    | critical what o ↦ record o { is_connected = true }
  ]

  -- deinit, which the destructor calls.
  unfoldable pub deinit : Opened Store → Opened Store
  deinit o = set_db (host.disconnect o.manager.db).1 o

  -- st_mode & ( S_IFDIR != 0 ) is its lowest bit.
  unfoldable pub make_directory : Str → Store → Bool × Store
  make_directory newdir s = elim (host.stat newdir s) [
    | none ↦ (false, s)
    | some st_mode ↦
        if st_mode % 2 == 1
        then (let r = host.mkdir newdir rwx s in
            if eqb_ℤ r.0 (pos 0) then (true, r.1) else (false, r.1))
        else (false, s)
  ]

  -- A manager whose database cannot be reached says that it is connected, as does any other.
  construct-is_connected :
      (dbserver proxystore : Str) (blank : Manager Store)
      → (construct dbserver proxystore blank).is_connected ≡ true
  unfolding construct
  construct-is_connected dbserver proxystore blank = ground arith

  -- POSIX: mkdir fails with -1 and makes nothing where the path exists.
  abbrev pub RefusesExisting : Type 0
  RefusesExisting =
      (path : Str) (mode st_mode : ℕ) (s : Store)
      → host.stat path s ≡ some st_mode
      → host.mkdir path mode s ≡ (negsuc 0, s)

  -- No directory is made.
  make_directory-nothing :
      RefusesExisting → (newdir : Str) (s : Store) → make_directory newdir s ≡ (false, s)
  unfolding make_directory
  make_directory-nothing refuses newdir s = go (host.stat newdir s) refl
    where
      go : (st : Option ℕ) → host.stat newdir s ≡ st → make_directory newdir s ≡ (false, s)
      go none e = rw (e, make_directory) refl
      go (some st_mode) e =
          rw (e, make_directory)
            (elim (Bool-cases (st_mode % 2 == 1)) [
              | inl odd ↦ rw (odd, refuses newdir rwx st_mode s e) refl
              | inr even ↦ rw even refl
            ])

-- time_zone_info, of which all but the declaration of its result is a comment.
unfoldable pub time_zone_info : Str
time_zone_info = []
