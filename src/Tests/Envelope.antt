-- ===== src/Tests/Envelope.antt =====
-- Concrete runs of the envelope and of the theorem on when it is written to its end.
use chromatic_imap_cplus_plu.Prelude.{ℕ, none, ◌<◌, ◌≡◌, refl, false, [], Option, some, ◌⊎◌, arith}
use chromatic_imap_cplus_plu.Text.{Str, codes}
use chromatic_imap_cplus_plu.Envelope.{
  Mail, process_multiple_addrs, addr_lines, parse, wrote, unfinished, undefined, written,
  recipients, single_sender_addr_line,
}
use chromatic_imap_cplus_plu.Envelope.Endings.{parse-wrote, Given, to_texts}

abbrev mail : Mail
mail = record {
  mime_field = λ f. (false, []);
  email_field = λ f. (false, []);
  from_name = codes "Ann";
  from_address = codes "ann@a.org";
  num_to = 1;
  to_name = λ i. some (codes "Bob");
  to_addr = λ i. some (codes "bob@b.org");
  num_cc = 0;
  cc_name = λ i. none;
  cc_addr = λ i. none;
  num_bcc = 0;
  bcc_name = λ i. none;
  bcc_addr = λ i. none;
}

abbrev load_mail : Str → Option Mail
load_mail filename = some mail

parse-wrote_example :
    ((mail.num_to ≡ 0)
      × ((parse 5 load_mail (codes "m.eml") ≡ unfinished)
          ⊎ (parse 5 load_mail (codes "m.eml") ≡ undefined))
      × (((j : ℕ) → Given (to_texts mail) j) → parse 5 load_mail (codes "m.eml") ≡ unfinished))
    ⊎ ((0 < mail.num_to) × (out : Str) × (parse 5 load_mail (codes "m.eml") ≡ wrote out))
parse-wrote_example =
    parse-wrote 5 load_mail (codes "m.eml") mail refl (omega arith, omega arith, omega arith)
      (omega arith, omega arith, omega arith)
      (λ j h. (_, refl), λ j h. absurd (omega arith), λ j h. absurd (omega arith))

-- With two recipients the first is written twice.
twice :
    recipients 5 1 0 (λ i. (some (codes "B"), some (codes "b@b"))) [] []
    ≡ written (
        codes
          "( (\"B\" NIL \"b\" \"b@b\") )\n( (\"B\" NIL \"b\" \"b@b\")\n(\"B\" NIL \"b\" \"b@b\")\n )\n")
unfolding recipients process_multiple_addrs addr_lines
twice = refl

-- The address of a sender keeps its angle and what follows it, as far as it goes.
long_address :
    single_sender_addr_line (codes "Ann <a@a.org> (x)")
    ≡ codes "( (\"Ann\" NIL NIL \"<a@a.org> (x\") )\n"
unfolding single_sender_addr_line
long_address = refl

-- A name in quotes comes without its address.
quoted_name : single_sender_addr_line (codes "\"Ann\" <a@a.org>") ≡ codes "( (\"Ann\") )\n"
unfolding single_sender_addr_line
quoted_name = refl
