-- ===== src/Flags/Laws.antt =====
-- Flags as text and back, and what STORE does to them, in chromatic_imap/chromatic_imap_mgr.cpp.
use chromatic_imap_cplus_plu.Text.{is_prefix, is_upper, to_lower}
use chromatic_imap_cplus_plu.Handler.Strings.{lcase}
use chromatic_imap_cplus_plu.Flags.{
  apply_flags, same_flag, all_flags, erase_flag, FlagsMethod, insert_flag, each_flag, answered,
  deleted, draft, flagged, recent, seen, add, remove, replace, find, codes, Str, mbx_flags_to_str,
  MailMessageFlag, str_to_mbx_flags, Flags,
}
use chromatic_imap_cplus_plu.Prelude.{
  ℕ, ◌≡◌, refl, ap, ◌∙◌, Bool, true, false, not, ◌&&◌, ◌||◌, List, [], ◌∷◌, none, arith, keep,
}

-- No lower-case text has a byte that is an upper-case letter.
is_prefix-lcase :
    (c d : ℕ) (t s : Str) → is_upper d ≡ true → is_prefix (c ∷ d ∷ t) (lcase s) ≡ false
unfolding lcase to_lower
is_prefix-lcase c d t [] e = refl
is_prefix-lcase c d t (a ∷ []) e = ground arith
is_prefix-lcase c d t (a ∷ b ∷ s) e = ground arith

find-lcase : (c d : ℕ) (t s : Str) → is_upper d ≡ true → find (c ∷ d ∷ t) (lcase s) ≡ none
unfolding lcase
find-lcase c d t [] e = refl
find-lcase c d t (a ∷ s) e = rw (is_prefix-lcase c d t (a ∷ s) e, find-lcase c d t s e) refl

-- No flag is recognised in a text in lower case: the flags stay those given.
pub str_to_mbx_flags-lcase : (s : Str) (flags : Flags) → str_to_mbx_flags (lcase s) flags ≡ flags
unfolding str_to_mbx_flags
str_to_mbx_flags-lcase s flags =
    rw
      (
        find-lcase 92 65 (codes "nswered") s refl,
        find-lcase 92 70 (codes "lagged") s refl,
        find-lcase 92 68 (codes "eleted") s refl,
        find-lcase 92 83 (codes "een") s refl,
        find-lcase 92 68 (codes "raft") s refl,
        find-lcase 92 82 (codes "ecent") s refl,
      )
      refl

abbrev every : (Bool → Bool) → Bool
every p = p true && p false

every_lem : (p : Bool → Bool) → every p ≡ true → (b : Bool) → p b ≡ true
every_lem p e true = ground arith
every_lem p e false = ground arith

abbrev flags_of : Bool → Bool → Bool → Bool → Bool → Bool → Flags
flags_of a b c d e f answered = a
flags_of a b c d e f deleted = b
flags_of a b c d e f draft = c
flags_of a b c d e f flagged = d
flags_of a b c d e f recent = e
flags_of a b c d e f seen = f

abbrev same_bool : Bool → Bool → Bool
same_bool true b = b
same_bool false b = not b

same_bool_lem : (a b : Bool) → same_bool a b ≡ true → a ≡ b
same_bool_lem true b e = ground arith
same_bool_lem false b e = ground arith

abbrev none_set : Flags
none_set = λ f. false

abbrev returns : Flags → MailMessageFlag → Bool
unfolding str_to_mbx_flags mbx_flags_to_str
returns flags f = same_bool (str_to_mbx_flags (mbx_flags_to_str flags) none_set f) (flags f)

returns_all :
    (f : MailMessageFlag)
    → every (λ a.
      every
        (λ b. every (λ c. every (λ d. every (λ e. every (λ g. returns (flags_of a b c d e g) f))))))
      ≡ true
unfolding returns
returns_all answered = refl
returns_all deleted = refl
returns_all draft = refl
returns_all flagged = refl
returns_all recent = refl
returns_all seen = refl

returns_each : (f : MailMessageFlag) (a b c d e g : Bool) → returns (flags_of a b c d e g) f ≡ true
returns_each f a b c d e g =
    every_lem (λ g. returns (flags_of a b c d e g) f)
      (every_lem (λ e. every (λ g. returns (flags_of a b c d e g) f))
        (every_lem (λ d. every (λ e. every (λ g. returns (flags_of a b c d e g) f)))
          (every_lem (λ c. every (λ d. every (λ e. every (λ g. returns (flags_of a b c d e g) f))))
            (every_lem
              (λ b.
                every
                  (λ c. every (λ d. every (λ e. every (λ g. returns (flags_of a b c d e g) f)))))
              (every_lem
                (λ a. every (λ b.
                  every
                    (λ c. every (λ d. every (λ e. every (λ g. returns (flags_of a b c d e g) f))))))
                (returns_all f) a)
              b)
            c)
          d)
        e)
      g

-- Flags written as text are read back as the same flags, for every one of the 64 sets.
pub str_to_mbx_flags-mbx_flags_to_str :
    (flags : Flags) (f : MailMessageFlag)
    → str_to_mbx_flags (mbx_flags_to_str flags) none_set f ≡ flags f
unfolding str_to_mbx_flags mbx_flags_to_str returns
str_to_mbx_flags-mbx_flags_to_str flags answered = same_bool_lem _ _ (
    returns_each answered (flags answered) (flags deleted) (flags draft) (flags flagged)
      (flags recent) (flags seen))
str_to_mbx_flags-mbx_flags_to_str flags deleted = same_bool_lem _ _ (
    returns_each deleted (flags answered) (flags deleted) (flags draft) (flags flagged)
      (flags recent) (flags seen))
str_to_mbx_flags-mbx_flags_to_str flags draft = same_bool_lem _ _ (
    returns_each draft (flags answered) (flags deleted) (flags draft) (flags flagged) (flags recent)
      (flags seen))
str_to_mbx_flags-mbx_flags_to_str flags flagged = same_bool_lem _ _ (
    returns_each flagged (flags answered) (flags deleted) (flags draft) (flags flagged)
      (flags recent) (flags seen))
str_to_mbx_flags-mbx_flags_to_str flags recent = same_bool_lem _ _ (
    returns_each recent (flags answered) (flags deleted) (flags draft) (flags flagged)
      (flags recent) (flags seen))
str_to_mbx_flags-mbx_flags_to_str flags seen = same_bool_lem _ _ (
    returns_each seen (flags answered) (flags deleted) (flags draft) (flags flagged) (flags recent)
      (flags seen))

abbrev mem : MailMessageFlag → List MailMessageFlag → Bool
mem f [] = false
mem f (g ∷ flags) = same_flag g f || mem f flags

each_flag-add :
    (chosen : List MailMessageFlag) (local : Flags) (f : MailMessageFlag)
    → each_flag add chosen local f ≡ (mem f chosen || local f)
each_flag-add [] local f = refl
each_flag-add (g ∷ chosen) local f = ground (arith, each_flag-add chosen (insert_flag g local) f)

each_flag-remove :
    (chosen : List MailMessageFlag) (local : Flags) (f : MailMessageFlag)
    → each_flag remove chosen local f ≡ (not (mem f chosen) && local f)
each_flag-remove [] local f = refl
each_flag-remove (g ∷ chosen) local f =
    ground (arith, each_flag-remove chosen (erase_flag g local) f)

mem-keep : (flags : Flags) (f : MailMessageFlag) → mem f (keep flags all_flags) ≡ flags f
mem-keep flags answered = ground arith
mem-keep flags deleted = ground arith
mem-keep flags draft = ground arith
mem-keep flags flagged = ground arith
mem-keep flags recent = ground arith
mem-keep flags seen = ground arith

-- What a method of changing flags makes of one flag.
abbrev pub stored : FlagsMethod → Bool → Bool → Bool
stored add given old = given || old
stored remove given old = not given && old
stored replace given old = given

-- Given some flags, the method +FLAGS sets those and -FLAGS clears those, the others staying as they were,
-- and FLAGS leaves exactly those.
pub apply_flags_lem :
    (method : FlagsMethod) (flags local : Flags) (f : MailMessageFlag)
    → apply_flags method flags local f ≡ stored method (flags f) (local f)
unfolding apply_flags
apply_flags_lem add flags local f =
    each_flag-add (keep flags all_flags) local f ∙ ap (λ b. b || local f) (mem-keep flags f)
apply_flags_lem remove flags local f =
    each_flag-remove (keep flags all_flags) local f ∙ ap (λ b. not b && local f) (mem-keep flags f)
apply_flags_lem replace flags local f = refl
