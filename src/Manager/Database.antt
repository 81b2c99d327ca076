-- ===== src/Manager/Database.antt =====
-- How chromatic_imap/chromatic_imap_mgr.cpp runs a stored procedure, and what its loops over the rows
-- leave in a variable.
use chromatic_imap_cplus_plu.Prelude.{◌≡◌, refl, ◌⊎◌, inl, inr, Bool, true, false, List, [], ◌∷◌}
use chromatic_imap_cplus_plu.Prelude.Int.{ℤ}
use chromatic_imap_cplus_plu.Text.{Str}
use chromatic_imap_cplus_plu.Handler.Types.{Reply, returned}
use chromatic_imap_cplus_plu.Manager.Types.{World, Manager, Argument, Answer, rows, failed}

pub Answer-cases :
    {Row : Type 0} (a : Answer Row)
    → ((rs : List Row) × (a ≡ rows rs)) ⊎ ((what : Str) × (a ≡ failed what))
Answer-cases (rows rs) = inl (rs, refl)
Answer-cases (failed what) = inr (what, refl)

module _ (w : World) where
  open w use {Store, Row, execute, as_long, as_string, rollback}

  -- SACommand::Execute on `m_db`
  unfoldable pub run : Str → List Argument → Manager Store → Answer Row × Manager Store
  run command arguments m = let r = execute command arguments m.db in (r.0, record m { db = r.1 })

  -- m_db.Rollback(), and whether it raises
  unfoldable pub roll_back : Manager Store → Bool × Manager Store
  roll_back m = let r = rollback m.db in (r.0, record m { db = r.1 })

  -- while( o.FetchNext() ) dw = o.Field( name ).asLong();
  abbrev pub last_long : Str → ℤ → List Row → ℤ
  last_long name dw [] = dw
  last_long name dw (row ∷ rest) = last_long name (as_long row name) rest

  -- while( o.FetchNext() ) str = o.Field( name ).asString();
  abbrev pub last_string : Str → Str → List Row → Str
  last_string name str [] = str
  last_string name str (row ∷ rest) = last_string name (as_string row name) rest

  -- The `try` block of a command that runs one procedure and reads no rows.
  unfoldable pub run_or_fail : Str → List Argument → Manager Store → Reply (Manager Store)
  unfolding run roll_back
  run_or_fail command arguments m =
      let r = run command arguments m in
      elim r.0 [
        | rows rest ↦ returned true [] r.1
        | failed what ↦ returned false [] (roll_back r.1).1
      ]
