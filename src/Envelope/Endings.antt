-- ===== src/Envelope/Endings.antt =====
-- When the envelope of a message (chromatic_imap_envelope_lib/chromatic_imap_envelope.cpp) is written to its end.
use chromatic_imap_cplus_plu.Prelude.{
  subst, sym, false, ◌∙◌, ◌++◌, ℕ, zero, suc, ◌+◌, ◌%◌, ◌^◌, ◌<◌, ◌≤◌, ◌==◌, leb, true, Bool-cases,
  List, [], ◌∷◌, Option, none, some, ◌≡◌, refl, ◌⊎◌, inl, inr, arith,
}
use chromatic_imap_cplus_plu.Text.{Str, codes}
use chromatic_imap_cplus_plu.Envelope.{
  Writing, written, null_text, no_end, texts, process_multiple_addrs, undefined, Mail, recipients,
  str_env_field, from_lines, last_of, copies, fetch_recipients, fetch_addrs, write_envelope, parse,
  wrote, unfinished,
}

zero-or_pos : (n : ℕ) → (n ≡ 0) ⊎ (0 < n)
zero-or_pos zero = inl refl
zero-or_pos (suc n) = inr (omega arith)

abbrev Ended : Writing → Type 0
Ended o = (out : Str) × (o ≡ written out)

abbrev Unwritten : Writing → Type 0
Unwritten o = (o ≡ no_end) ⊎ (o ≡ null_text)

-- The texts of a recipient are not null.
abbrev pub Given : (ℕ → Option Str × Option Str) → ℕ → Type 0
Given apr i = (a : Str × Str) × (texts (apr i) ≡ some a)

leb-turn : (n i : ℕ) → i < 2 ^ 64 → leb i (last_of 0) ≡ true
unfolding last_of
leb-turn n i h = ground arith

module _ (n last i : ℕ) (apr : ℕ → Option Str × Option Str) (actr : List (Str × Str))
    (out : Str) where
  recipients-over : leb i last ≡ false → recipients (suc n) last i apr actr out ≡ written out
  unfolding recipients
  recipients-over h = rw (h, recipients) refl

  recipients-null :
      leb i last ≡ true → texts (apr i) ≡ none → recipients (suc n) last i apr actr out ≡ null_text
  unfolding recipients
  recipients-null h e = rw (h, e, recipients) refl

  recipients-turn :
      (a : Str × Str)
      → leb i last ≡ true
      → texts (apr i) ≡ some a
      → recipients (suc n) last i apr actr out
        ≡ recipients n last
            ((i + 1) % 2 ^ 64)
            apr
            (actr ++ a ∷ [])
            (out ++ process_multiple_addrs (actr ++ a ∷ []))
  unfolding recipients
  recipients-turn a h e = rw (h, e, recipients) refl

recipients-endless :
    (n i : ℕ) (apr : ℕ → Option Str × Option Str) (actr : List (Str × Str)) (out : Str)
    → i < 2 ^ 64
    → ((j : ℕ) → Given apr j)
    → recipients n (last_of 0) i apr actr out ≡ no_end
recipients-endless zero i apr actr out h g = unfold recipients in refl
recipients-endless (suc n) i apr actr out h g =
    recipients-turn n (last_of 0) i apr actr out (g i).0 (leb-turn n i h) (g i).1
    ∙ recipients-endless n ((i + 1) % 2 ^ 64) apr _ _ (omega arith) g

Option-cases : {A : Type 0} (o : Option A) → (o ≡ none) ⊎ ((a : A) × (o ≡ some a))
Option-cases none = inl refl
Option-cases (some a) = inr (a, refl)

recipients-Unwritten :
    (n i : ℕ) (apr : ℕ → Option Str × Option Str) (actr : List (Str × Str)) (out : Str)
    → i < 2 ^ 64
    → Unwritten (recipients n (last_of 0) i apr actr out)
recipients-Unwritten zero i apr actr out h = unfold recipients in inl refl
recipients-Unwritten (suc n) i apr actr out h = elim (Option-cases (texts (apr i))) [
  | inl null ↦ inr (recipients-null n (last_of 0) i apr actr out (leb-turn n i h) null)
  | inr given ↦
      subst Unwritten
        (sym (recipients-turn n (last_of 0) i apr actr out given.0 (leb-turn n i h) given.1))
        (recipients-Unwritten n ((i + 1) % 2 ^ 64) apr _ _ (omega arith))
]

last_of-pos : (dw : ℕ) → 0 < dw → dw < 2 ^ 64 → last_of dw + 1 ≡ dw
unfolding last_of
last_of-pos dw p h = omega arith

recipients-Ended :
    (n last i : ℕ) (apr : ℕ → Option Str × Option Str) (actr : List (Str × Str)) (out : Str)
    → last + 1 < 2 ^ 64
    → i ≤ last + 1
    → last + 1 < i + n
    → ((j : ℕ) → j ≤ last → Given apr j)
    → Ended (recipients n last i apr actr out)
recipients-Ended zero last i apr actr out h le lt g = absurd (omega arith)
recipients-Ended (suc n) last i apr actr out h le lt g = elim (Bool-cases (leb i last)) [
  | inl turn ↦
      let given = g i (ground arith) in
      subst Ended (sym (recipients-turn n last i apr actr out given.0 turn given.1))
        (recipients-Ended n last ((i + 1) % 2 ^ 64) apr _ _ h (ground arith) (ground arith) g)
  | inr over ↦ (out, recipients-over n last i apr actr out over)
]

-- The recipients that there are have texts.
abbrev pub AllGiven : (ℕ → Option Str × Option Str) → ℕ → Type 0
AllGiven apr dw = (j : ℕ) → j < dw → Given apr j

copies-Ended :
    (n dw : ℕ) (apr : ℕ → Option Str × Option Str) (out : Str)
    → dw < 2 ^ 31
    → dw < n
    → AllGiven apr dw
    → Ended (copies n dw apr out)
unfolding copies last_of
copies-Ended n dw apr out h lt g = elim (Bool-cases (dw == 0)) [
  | inl zero_copies ↦ rw zero_copies (_, refl)
  | inr some_copies ↦ rw some_copies (
      recipients-Ended n (last_of dw) 0 apr [] out (ground arith) (ground arith) (ground arith)
        (λ j le. g j (ground arith)))
]

-- CkEmail counts in an int.
abbrev pub Ints : Mail → Type 0
Ints mail = (mail.num_to < 2 ^ 31) × (mail.num_cc < 2 ^ 31) × (mail.num_bcc < 2 ^ 31)

-- More turns than recipients of each kind.
abbrev pub Turns : ℕ → Mail → Type 0
Turns n mail = (mail.num_to < n) × (mail.num_cc < n) × (mail.num_bcc < n)

abbrev pub to_texts : Mail → ℕ → Option Str × Option Str
to_texts mail = λ i. (mail.to_name i, mail.to_addr i)

abbrev pub cc_texts : Mail → ℕ → Option Str × Option Str
cc_texts mail = λ i. (mail.cc_addr i, mail.cc_name i)

abbrev pub bcc_texts : Mail → ℕ → Option Str × Option Str
bcc_texts mail = λ i. (mail.bcc_addr i, mail.bcc_name i)

-- CkEmail has texts for the recipients that it counts.
abbrev pub HasTexts : Mail → Type 0
HasTexts mail =
    AllGiven (to_texts mail) mail.num_to
    × AllGiven (cc_texts mail) mail.num_cc
    × AllGiven (bcc_texts mail) mail.num_bcc

fetch_recipients-Ended :
    (n : ℕ) (mail : Mail) (out : Str)
    → Ints mail
    → Turns n mail
    → HasTexts mail
    → 0 < mail.num_to
    → Ended (fetch_recipients n mail out)
unfolding fetch_recipients last_of
fetch_recipients-Ended n mail out ints turns given h =
    let to =
      recipients-Ended n (last_of mail.num_to) 0 (to_texts mail) [] out (omega (arith, ints.0))
        (omega arith) (omega (arith, ints.0, turns.0, h))
        (λ j le. given.0 j (omega (arith, ints.0, h, le))) in
    let cc = copies-Ended n mail.num_cc (cc_texts mail) to.0 ints.1 turns.1 given.1 in
    let bcc = copies-Ended n mail.num_bcc (bcc_texts mail) cc.0 ints.2 turns.2 given.2 in
    (bcc.0, rw (to.1, cc.1) bcc.1)

fetch_recipients-endless :
    (n : ℕ) (mail : Mail) (out : Str)
    → mail.num_to ≡ 0
    → ((j : ℕ) → Given (to_texts mail) j)
    → fetch_recipients n mail out ≡ no_end
unfolding fetch_recipients
fetch_recipients-endless n mail out h g =
    rw (h, recipients-endless n 0 (to_texts mail) [] out (omega arith) g) refl

fetch_recipients-Unwritten :
    (n : ℕ) (mail : Mail) (out : Str) → mail.num_to ≡ 0 → Unwritten (fetch_recipients n mail out)
unfolding fetch_recipients
fetch_recipients-Unwritten n mail out h =
    rw h (elim (recipients-Unwritten n 0 (to_texts mail) [] out (omega arith)) [
      | inl endless ↦ rw endless (inl refl)
      | inr null ↦ rw null (inr refl)
    ])

-- A message that is read has its envelope written, with any number of turns above those of its
-- recipients, exactly when it has a recipient in To: without one, no number of turns is enough, or a text
-- past the recipients is null; and where none is null, no number of turns is enough.
pub parse-wrote :
    (n : ℕ) (load : Str → Option Mail) (filename : Str) (mail : Mail)
    → load filename ≡ some mail
    → Ints mail
    → Turns n mail
    → HasTexts mail
    → ((mail.num_to ≡ 0)
        × ((parse n load filename ≡ unfinished) ⊎ (parse n load filename ≡ undefined))
        × (((j : ℕ) → Given (to_texts mail) j) → parse n load filename ≡ unfinished))
      ⊎ ((0 < mail.num_to) × (out : Str) × (parse n load filename ≡ wrote out))
unfolding parse write_envelope fetch_addrs
parse-wrote n load filename mail e ints turns given =
    let before =
      (str_env_field n mail (codes "Date") ++ str_env_field n mail (codes "Subject"))
      ++ from_lines n mail in
    elim (zero-or_pos mail.num_to) [
      | inl none_to ↦ inl (
        none_to,
        elim (fetch_recipients-Unwritten n mail before none_to) [
          | inl endless ↦ inl (rw (e, parse, write_envelope, fetch_addrs, endless) refl)
          | inr null ↦ inr (rw (e, parse, write_envelope, fetch_addrs, null) refl)
        ],
        λ g.
            rw (e, parse, write_envelope, fetch_addrs, fetch_recipients-endless n mail _ none_to g)
              refl,
      )
      | inr some_to ↦
          let done = fetch_recipients-Ended n mail before ints turns given some_to in
          let out =
            done.0
            ++ str_env_field n mail (codes "In-Reply-To")
            ++ str_env_field n mail (codes "Message-ID") in
          inr (some_to, out, rw (e, parse, write_envelope, fetch_addrs, done.1) refl)
    ]
