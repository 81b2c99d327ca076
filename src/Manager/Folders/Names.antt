-- ===== src/Manager/Folders/Names.antt =====
-- What `check_folder_name` of chromatic_imap/chromatic_imap_mgr.cpp promises.
use chromatic_imap_cplus_plu.Prelude.{
  ◌≡◌, refl, sym, ap, ◌∙◌, Bool-cases, inl, inr, [], ◌∷◌, ◌++◌, arith, ◌==◌, if◌then◌else◌,
}
use chromatic_imap_cplus_plu.Text.{Str, to_upper}
use chromatic_imap_cplus_plu.Handler.Strings.{ucase}
use chromatic_imap_cplus_plu.Handler.Strings.Laws.{Without}
use chromatic_imap_cplus_plu.Manager.Types.{World, Manager}
use chromatic_imap_cplus_plu.Manager.Folders.{slash, check_folder_name, starts_with_slash}

ucase-append : (s t : Str) → ucase (s ++ t) ≡ ucase s ++ ucase t
unfolding ucase
ucase-append [] t = refl
ucase-append (c ∷ s) t = ap (◌∷◌ (to_upper c)) (ucase-append s t)

ucase-Without : (s : Str) → Without slash s → Without slash (ucase s)
unfolding ucase to_upper
ucase-Without [] h = tt
ucase-Without (c ∷ s) h = (ground arith, ucase-Without s h.1)

-- Texts without a slash that end at the first slash of the same text are the same.
before_slash_unique :
    (s t a b : Str) → Without slash s → Without slash t → s ++ slash ∷ a ≡ t ++ slash ∷ b → s ≡ t
before_slash_unique [] [] a b h k e = refl
before_slash_unique [] (d ∷ t) a b h k e = ground arith
before_slash_unique (c ∷ s) [] a b h k e = ground arith
before_slash_unique (c ∷ s) (d ∷ t) a b h k e = ground (arith, before_slash_unique s t a b h.1 k.1)

-- The part of a name behind the user's.
abbrev behind_user : Str → Str
behind_user [] = []
behind_user (c ∷ folder) = if c == slash then folder else c ∷ folder

module _ (w : World) where
  open w use {Store}

  pub check_folder_name_lem :
      (folder : Str) (m : Manager Store)
      → check_folder_name w folder m ≡ slash ∷ (ucase m.user ++ slash ∷ ucase (behind_user folder))
  unfolding check_folder_name starts_with_slash ucase to_upper
  check_folder_name_lem [] m = ap (◌∷◌ slash) (ucase-append m.user (slash ∷ []))
  check_folder_name_lem (c ∷ folder) m = elim (Bool-cases (c == slash)) [
    | inl e ↦ rw e (
        let same_byte : c ≡ slash = ground arith in
        ap (◌∷◌ slash) (ucase-append m.user (c ∷ folder)) ∙ rw same_byte refl)
    | inr e ↦ rw e (ap (◌∷◌ slash) (ucase-append m.user (slash ∷ c ∷ folder)))
  ]

  -- Whatever mailboxes two users name, the same folder of the database is named by both only where
  -- their names, which have no slash, differ in case alone.
  pub check_folder_name-apart :
      (f g : Str) (m n : Manager Store)
      → Without slash m.user
      → Without slash n.user
      → check_folder_name w f m ≡ check_folder_name w g n
      → ucase m.user ≡ ucase n.user
  check_folder_name-apart f g m n h k e =
      before_slash_unique (ucase m.user) (ucase n.user) (ucase (behind_user f))
        (ucase (behind_user g)) (ucase-Without m.user h) (ucase-Without n.user k)
        (ap (λ s. elim s [ [] ↦ [] | c ∷ rest ↦ rest ])
          (sym (check_folder_name_lem f m) ∙ e ∙ check_folder_name_lem g n))
