-- ===== src/Manager/Commands/Listing.antt =====
-- LIST, LSUB and STATUS of chromatic_imap/chromatic_imap_mgr.cpp.
use chromatic_imap_cplus_plu.Manager.Commands.Mailboxes.{without_brackets}
use chromatic_imap_cplus_plu.Prelude.{
  Option, ◌==◌, not, ◌&&◌, Bool, true, false, List, [], ◌∷◌, none, some, if◌then◌else◌, length,
}
use chromatic_imap_cplus_plu.Text.{Str, codes, same, find_first_of, substr, substr_len}
use chromatic_imap_cplus_plu.Flags.{mbx_attributes_to_str, stream_all}
use chromatic_imap_cplus_plu.Tokenizer.{safe_tokenize}
use chromatic_imap_cplus_plu.Handler.Strings.{lcase, ltrim, rtrim, extract_quoted_string}
use chromatic_imap_cplus_plu.Handler.Types.{Reply, returned}
use chromatic_imap_cplus_plu.Manager.Types.{World, Manager, Mailbox}
use chromatic_imap_cplus_plu.Manager.Folders.{
  check_folder_name, enum_mailbox_list, with_folder, collected, uncollected,
}
use chromatic_imap_cplus_plu.Manager.Messages.{read_mailbox_info}
use chromatic_imap_cplus_plu.Manager.Responses.{status_response}
use chromatic_imap_cplus_plu.Manager.Commands.Account.{pair_from_tuple}

abbrev quotes : Str
quotes = 34 ∷ 34 ∷ []

-- `imp[0]` and `imp[1]` are both `""`.
unfoldable pub asks_hierarchy : List Str → Bool
asks_hierarchy (a ∷ b ∷ []) = same a quotes && same b quotes
asks_hierarchy _ = false

-- `atoms` without its parentheses, where it has both.
unfoldable pub status_atoms : Str → Option Str
unfolding without_brackets
status_atoms atoms = without_brackets (codes "(") (codes ")") atoms

module _ (w : World) where
  open w use {Store, format}

  unfoldable pub list_line : Str → Mailbox → Str
  unfolding mbx_attributes_to_str
  list_line fmt mbx = format fmt (mbx_attributes_to_str mbx.attributes ∷ codes "/" ∷ mbx.name ∷ [])

  -- The mailboxes that the two words of `params` name, a line for each.
  unfoldable pub list_mailboxes : Str → Str → Bool → Manager Store → Reply (Manager Store)
  unfolding pair_from_tuple enum_mailbox_list list_line extract_quoted_string
  list_mailboxes params fmt subscribed m =
      let pr = pair_from_tuple params in
      elim (enum_mailbox_list w m.user (extract_quoted_string pr.0) (extract_quoted_string pr.1)
        subscribed m) [
          | collected mbxs next ↦ returned true (stream_all (list_line fmt) mbxs) next
          | uncollected what next ↦ returned false [] next
        ]

  unfoldable pub on_list : Str → Str → Manager Store → Reply (Manager Store)
  unfolding safe_tokenize asks_hierarchy list_mailboxes
  on_list params fmt m =
      let imp = safe_tokenize params (codes " ") in
      if not (length imp == 2)
      then returned false [] m
      else if asks_hierarchy imp
      then returned true (format fmt (codes "\\noselect \\unmarked" ∷ codes "/" ∷ [] ∷ [])) m
      else list_mailboxes params fmt false m

  unfoldable pub on_lsub : Str → Str → Manager Store → Reply (Manager Store)
  unfolding safe_tokenize list_mailboxes
  on_lsub params fmt m =
      if not (length (safe_tokenize params (codes " ")) == 2)
      then returned false [] m
      else list_mailboxes params fmt true m

  -- The end of `on_status`, for the words between its parentheses.
  unfoldable pub answer_status : Str → List Str → Str → Manager Store → Reply (Manager Store)
  unfolding check_folder_name with_folder read_mailbox_info status_response
  answer_status mailbox [] fmt m = returned false [] m
  answer_status mailbox (atom ∷ rest) fmt m =
      let folder = check_folder_name w mailbox m in
      with_folder w folder
        (λ next.
          let r = read_mailbox_info w folder next in
          returned true (format fmt (mailbox ∷ status_response r.0 (atom ∷ rest) ∷ [])) r.1)
        m

  unfoldable pub on_status : Str → Str → Manager Store → Reply (Manager Store)
  unfolding status_atoms answer_status lcase ltrim rtrim extract_quoted_string safe_tokenize
  on_status params fmt m =
      let atoms = lcase params in
      elim (find_first_of (codes " ") atoms) [
        | none ↦ returned false [] m
        | some idx ↦ elim (status_atoms (substr idx atoms)) [
          | none ↦ returned false [] m
          | some inner ↦
              answer_status (extract_quoted_string (substr_len 0 idx atoms))
                (safe_tokenize (ltrim (rtrim inner (codes " ")) (codes " ")) (codes " ")) fmt m
        ]
      ]
