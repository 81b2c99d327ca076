-- ===== src/Manager/Commands/Messages/Store.antt =====
-- What a STORE of chromatic_imap/chromatic_imap_mgr.cpp does to flags.
use chromatic_imap_cplus_plu.Prelude.{◌≡◌, refl, false, []}
use chromatic_imap_cplus_plu.Text.{Str, codes, find, found, is_empty}
use chromatic_imap_cplus_plu.Flags.{Flags, FlagsMethod, add, remove, replace, apply_flags}
use chromatic_imap_cplus_plu.Flags.Laws.{str_to_mbx_flags-lcase}
use chromatic_imap_cplus_plu.Handler.Strings.{lcase, extract_quoted_string}
use chromatic_imap_cplus_plu.Manager.Types.{World, Manager, no_flags}
use chromatic_imap_cplus_plu.Manager.Commands.Messages.{
  on_store, store_parsed, store_each, store_atoms, flags_method, requested, highest, before_space,
}

-- What is left of a message's flags when no flags are given.
abbrev pub left_by : FlagsMethod → Flags → Flags
left_by add local = local
left_by remove local = local
left_by replace local = no_flags

apply_flags-none :
    (method : FlagsMethod) (local : Flags)
    → apply_flags method no_flags local ≡ left_by method local
unfolding apply_flags
apply_flags-none add local = refl
apply_flags-none remove local = refl
apply_flags-none replace local = refl

module _ (w : World) where
  open w use {Store}

  -- A STORE with parameters, on a mailbox that is not read-only, whatever flags it names, treats
  -- each message asked for as one that names none; and that leaves a message's flags as they are
  -- where the method is to add or to remove, and takes all away where it is to replace.
  pub on_store-no_flags :
      (params fmt : Str) (m : Manager Store)
      → is_empty (lcase params) ≡ false
      → m.info.read_only ≡ false
      → let s = lcase params in
        (on_store w params fmt m
          ≡ store_each w
              (requested m.uids (highest m) (extract_quoted_string (before_space s)) m.messages)
              no_flags
              (flags_method s)
              (found (find (codes "silent") s))
              []
              m)
        × ((local : Flags)
            → apply_flags (flags_method s) no_flags local ≡ left_by (flags_method s) local)
  unfolding on_store store_parsed store_atoms
  on_store-no_flags params fmt m e writable = (
    rw (e, writable, str_to_mbx_flags-lcase) refl,
    λ local. apply_flags-none (flags_method (lcase params)) local,
  )
