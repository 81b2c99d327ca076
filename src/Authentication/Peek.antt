-- ===== src/Authentication/Peek.antt =====
-- When the loop of `passwd_peek` (tlpi/tlpi_authentication_assist.cpp) ends.
use chromatic_imap_cplus_plu.Prelude.{
  ℕ, zero, suc, ◌≡◌, ◌≢◌, ◌⊎◌, inl, inr, refl, ap, ◌∙◌, ◌≤◌, Bool-cases, [], ◌∷◌, none, some, arith,
  length, ltb,
}
use chromatic_imap_cplus_plu.Text.{Str}
use chromatic_imap_cplus_plu.Authentication.{
  PwdStat, ps_no_stat, ps_no_login_required, ps_length_out_of_range, ps_shadow_by_default,
  peek_turn, peek_loop, passwd_peek,
}

-- A status that a turn keeps is kept for ever.
stuck :
    (turns : ℕ) (field : Str) (ps : PwdStat)
    → peek_turn field ps ≡ ps
    → ps ≢ ps_no_stat
    → peek_loop turns field ps ≡ none
unfolding peek_loop
stuck zero field ps_no_stat e ne = absurd (ne refl)
stuck zero field _ e ne = refl
stuck (suc turns) field ps_no_stat e ne = absurd (ne refl)
stuck (suc turns) field ps e ne = ap (peek_loop turns field) e ∙ stuck turns field ps e ne

over : (turns : ℕ) (field : Str) → peek_loop turns field ps_no_stat ≡ some ps_no_stat
unfolding peek_loop
over zero field = refl
over (suc turns) field = refl

-- Three turns, one for each status that the loop goes through.
peek-after :
    (turns : ℕ) (field : Str)
    → ((length field ≡ 13)
        × (peek_loop (suc (suc (suc turns))) field ps_no_login_required ≡ some ps_no_stat))
      ⊎ ((length field ≢ 13)
          × (peek_loop (suc (suc (suc turns))) field ps_no_login_required ≡ none))
unfolding peek_loop peek_turn
peek-after turns [] =
    inr (omega arith, stuck (suc (suc (suc turns))) [] ps_no_login_required refl (λ e. cc))
peek-after turns (c ∷ field) = elim (Bool-cases (ltb 13 (length (c ∷ field)))) [
  | inl long ↦ inr (
    ground arith,
    stuck (suc (suc turns)) (c ∷ field) ps_length_out_of_range (rw long refl) (λ e. cc),
  )
  | inr fits ↦
      let text = c ∷ field in
      let turn : peek_turn text ps_length_out_of_range ≡ ps_shadow_by_default = rw fits refl in
      let next = ap (peek_loop (suc turns) text) turn in
      elim (Bool-cases (ltb (length (c ∷ field)) 13)) [
        | inl short ↦ inr (
          ground arith,
          next ∙ stuck (suc turns) (c ∷ field) ps_shadow_by_default (rw short refl) (λ e. cc),
        )
        | inr exact ↦
            let last : peek_turn text ps_shadow_by_default ≡ ps_no_stat = rw exact refl in
            inl (ground arith, next ∙ ap (peek_loop turns text) last ∙ over turns text)
      ]
]

-- With at least three turns the peek at a field of 13 bytes ends without a status, and the peek at
-- any other field does not end, however many turns there are.
pub passwd_peek-Ends :
    (turns : ℕ) (passwd_field user_name : Str)
    → 3 ≤ turns
    → ((length passwd_field ≡ 13) × (passwd_peek turns passwd_field user_name ≡ some ps_no_stat))
      ⊎ ((length passwd_field ≢ 13) × (passwd_peek turns passwd_field user_name ≡ none))
unfolding passwd_peek peek_loop
passwd_peek-Ends zero field name h = absurd (omega arith)
passwd_peek-Ends (suc zero) field name h = absurd (omega arith)
passwd_peek-Ends (suc (suc zero)) field name h = absurd (omega arith)
passwd_peek-Ends (suc (suc (suc turns))) field name h = peek-after turns field
