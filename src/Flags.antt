-- ===== src/Flags.antt =====
-- The flags of a message and the attributes of a mailbox in chromatic_imap/chromatic_imap_mgr.cpp, with
-- their enumerations in chromatic_imap/chromatic_types.h. A std::set is its test of membership, and
-- a loop over it visits the members in the order of the enumeration.
pub mod Laws
use chromatic_imap_cplus_plu.Prelude.{
  ℕ, Bool, true, false, List, [], ◌∷◌, ◌++◌, none, some, if◌then◌else◌, keep, take, ◌==◌,
}
use chromatic_imap_cplus_plu.Text.{Str, codes, find, find_last_of, found}

-- chromatic_mail_message_flag
pub data MailMessageFlag : Type 0 where
  answered deleted draft flagged recent seen : MailMessageFlag

-- chromatic_flags_method
pub data FlagsMethod : Type 0 where
  add remove replace : FlagsMethod

-- chromatic_mailbox_attribute
pub data MailboxAttribute : Type 0 where
  no_inferiors no_select marked unmarked : MailboxAttribute

abbrev pub Flags : Type 0
Flags = MailMessageFlag → Bool

abbrev pub Attributes : Type 0
Attributes = MailboxAttribute → Bool

abbrev pub all_flags : List MailMessageFlag
all_flags = answered ∷ deleted ∷ draft ∷ flagged ∷ recent ∷ seen ∷ []

abbrev pub all_attributes : List MailboxAttribute
all_attributes = no_inferiors ∷ no_select ∷ marked ∷ unmarked ∷ []

abbrev flag_code : MailMessageFlag → ℕ
flag_code answered = 0
flag_code deleted = 1
flag_code draft = 2
flag_code flagged = 3
flag_code recent = 4
flag_code seen = 5

abbrev pub same_flag : MailMessageFlag → MailMessageFlag → Bool
same_flag f g = flag_code f == flag_code g

abbrev pub insert_flag : MailMessageFlag → Flags → Flags
insert_flag f flags = λ g. if same_flag f g then true else flags g

abbrev pub erase_flag : MailMessageFlag → Flags → Flags
erase_flag f flags = λ g. if same_flag f g then false else flags g

abbrev pub insert_found : Str → MailMessageFlag → Str → Flags → Flags
insert_found name f flag_string flags =
    if found (find name flag_string) then insert_flag f flags else flags

unfoldable pub str_to_mbx_flags : Str → Flags → Flags
str_to_mbx_flags flag_string flags = insert_found (codes "\\Recent") recent flag_string (
    insert_found (codes "\\Draft") draft flag_string (
      insert_found (codes "\\Seen") seen flag_string (
        insert_found (codes "\\Deleted") deleted flag_string (
          insert_found (codes "\\Flagged") flagged flag_string
            (insert_found (codes "\\Answered") answered flag_string flags)))))

-- str.erase( idx ) from the last space on
abbrev pub erase_from_last_space : Str → Str
erase_from_last_space str = elim (find_last_of (codes " ") str) [
  | none ↦ str
  | some idx ↦ take idx str
]

abbrev pub stream_all : {A : Type 0} → (A → Str) → List A → Str
stream_all text [] = []
stream_all text (x ∷ xs) = text x ++ stream_all text xs

abbrev pub flag_text : MailMessageFlag → Str
flag_text answered = codes "\\Answered "
flag_text flagged = codes "\\Flagged "
flag_text deleted = codes "\\Deleted "
flag_text seen = codes "\\Seen "
flag_text draft = codes "\\Draft "
flag_text recent = codes "\\Recent "

unfoldable pub mbx_flags_to_str : Flags → Str
mbx_flags_to_str flags = erase_from_last_space (stream_all flag_text (keep flags all_flags))

abbrev pub attribute_text : MailboxAttribute → Str
attribute_text no_inferiors = codes "\\Noinferiors "
attribute_text no_select = codes "\\Noselect "
attribute_text marked = codes "\\Marked "
attribute_text unmarked = codes "\\Unmarked "

unfoldable pub mbx_attributes_to_str : Attributes → Str
mbx_attributes_to_str attributes =
    erase_from_last_space (stream_all attribute_text (keep attributes all_attributes))

-- The loop of `store_flags` over the flags given.
abbrev pub each_flag : FlagsMethod → List MailMessageFlag → Flags → Flags
each_flag method [] local = local
each_flag add (f ∷ flags) local = each_flag add flags (insert_flag f local)
each_flag remove (f ∷ flags) local = each_flag remove flags (erase_flag f local)
each_flag replace (f ∷ flags) local = each_flag replace flags local

-- What `store_flags` makes of a message's flags.
unfoldable pub apply_flags : FlagsMethod → Flags → Flags → Flags
apply_flags replace flags local = flags
apply_flags add flags local = each_flag add (keep flags all_flags) local
apply_flags remove flags local = each_flag remove (keep flags all_flags) local
