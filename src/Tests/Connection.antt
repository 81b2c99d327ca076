-- ===== src/Tests/Connection.antt =====
-- Concrete runs of the theorems on connections, users and ids of a process.
use chromatic_imap_cplus_plu.Prelude.{
  ℕ, ◌≡◌, ◌≢◌, ◌⊎◌, refl, true, false, [], some, none, arith, length,
}
use chromatic_imap_cplus_plu.Prelude.Int.{pos}
use chromatic_imap_cplus_plu.Text.{codes}
use chromatic_imap_cplus_plu.Handler.Types.{Server, returned, no_command_yet, no_packet_error}
use chromatic_imap_cplus_plu.Connection.{
  Connection, Surroundings, thread_pool, open_connection, handle_input,
}
use chromatic_imap_cplus_plu.Connection.Ownership.{
  Shared, Owned, Reach, here, next, input, take, open_connection-Owned,
}
use chromatic_imap_cplus_plu.Authentication.{ps_no_stat, passwd_peek}
use chromatic_imap_cplus_plu.Authentication.Peek.{passwd_peek-Ends}
use chromatic_imap_cplus_plu.Credentials.{
  System, set, left_process, set_file_system_uid, set_file_system_gid, set_effective_process_gid,
}
use chromatic_imap_cplus_plu.Credentials.FileSystem.{Documented, Denied, setters-ids}

-- A manager that accepts all and keeps nothing.
abbrev server_test : Server
server_test = record {
  State = ℕ;
  call = λ service format params s. returned true [] s;
  uids = λ b s. s;
  append_text = λ text s. s;
}

abbrev around_test : Surroundings
around_test = record {
  client_addr = codes "10.0.0.1:9000";
  computer_name = codes "mail";
  addr_found = true;
  activated = pos 0;
  takes_handler = true;
}

abbrev accepted : Connection ℕ
accepted = record {
  session = record {
    stream = [];
    sent = [];
    token = [];
    command_text = [];
    command = no_command_yet;
    error = no_packet_error;
    silent = false;
    uid = false;
    states = λ s. false;
    context = 0;
  };
  last_activity_time = 0;
  maximum_time_to_wait = 1800;
  registered = false;
  has_manager = false;
  deleted = false;
}

abbrev opened : Connection ℕ
opened = record accepted {
  session = record accepted.session {
    sent =
        codes
          "* OK IMAP4rev1 Ready Oemo Imap Message Server mail Overtone Software Inc. All Rights Reserved  Ready\r\n";
  };
  registered = true;
  has_manager = true;
}

opening : open_connection thread_pool around_test accepted ≡ (opened, pos 0)
unfolding open_connection
opening = refl

-- Input for the connection puts it into the queue of the pool, from which a thread takes it.
abbrev at_work : Shared ℕ
at_work = record {
  connection = record opened { last_activity_time = 100; registered = false };
  queued = 0;
  working = 1;
}

to_work :
    Reach server_test around_test (record { connection = opened; queued = 0; working = 0 }) at_work
unfolding handle_input
to_work = next (next here (input 100 [] [] refl refl)) (take refl)

open_connection-Owned_example : Owned at_work
open_connection-Owned_example =
    open_connection-Owned server_test around_test accepted opened at_work opening refl to_work

passwd_peek-Ends_example :
    ((length (codes "x") ≡ 13) × (passwd_peek 5 (codes "x") (codes "ann") ≡ some ps_no_stat))
    ⊎ ((length (codes "x") ≢ 13) × (passwd_peek 5 (codes "x") (codes "ann") ≡ none))
passwd_peek-Ends_example = passwd_peek-Ends 5 (codes "x") (codes "ann") (omega arith)

-- A process by its ids for files and its two groups, for which the system grants all.
abbrev granting : System
granting = record {
  Process = ℕ × ℕ × (ℕ × ℕ);
  fsuid = λ p. p.0;
  fsgid = λ p. p.1;
  gids = λ p. p.2;
  setuid = λ id p. (pos 0, p);
  setgid = λ id p. (pos 0, p);
  seteuid = λ id p. (pos 0, p);
  setreuid = λ r e p. (pos 0, p);
  setregid = λ r e p. (pos 0, (p.0, p.1, (r, e)));
  setfsuid = λ id p. (pos p.0, (id, p.1, p.2));
  setfsgid = λ id p. (pos p.1, (p.0, id, p.2));
}

granting-Documented : Documented granting
granting-Documented = record {
  previous_uid = λ id p. refl;
  previous_gid = λ id p. refl;
  same_groups = λ id p. refl;
}

abbrev some_user : granting.Process
some_user = (1000, 0, (1, 1))

setters-ids_example :
    ((granting.fsuid some_user ≡ 0)
        × (set_file_system_uid granting 5 some_user ≡ set (granting.setfsuid 5 some_user).1)
      ⊎ (granting.fsuid some_user ≢ 0) × Denied (set_file_system_uid granting 5 some_user))
    × ((granting.fsgid some_user ≡ 0)
          × (set_file_system_gid granting 5 some_user ≡ set (granting.setfsgid 5 some_user).1)
        ⊎ (granting.fsgid some_user ≢ 0) × Denied (set_file_system_gid granting 5 some_user))
    × (granting.gids (left_process (set_effective_process_gid granting 5 some_user))
        ≡ granting.gids some_user)
setters-ids_example = setters-ids granting granting-Documented 5 some_user
