-- ===== src/Auth/Toy/Table.antt =====
-- A table of users with one administrator, and passwords that are marked instead of hashed, for the tests.
use server_monitor.Base.{none, some, [], ◌∷◌, ◌==◌, eqb, if◌then◌else◌}
use server_monitor.Base.Text.{append}
use server_monitor.Base.Int.{pos}
use server_monitor.Errors.{ok}
use server_monitor.Auth.Accounts.{User, Users, Passwords}

abbrev pub root_user : User
root_user = record {
  id = 7;
  username = "root";
  password = "#secret77";
  role = "admin";
  token_version = pos 0;
}

-- One user, the administrator; a user who is created is the state.
abbrev pub users : Users
users = record {
  State = User;
  count = λ s. ok 1;
  find_by_username = λ name s. if s.username == name then ok (some s) else ok none;
  find_by_id = λ id s. if eqb s.id id then ok (some s) else ok none;
  create = λ name hashed role s. (
    ok (record { id = 8; username = name; password = hashed; role = role; token_version = pos 0 }),
    record { id = 8; username = name; password = hashed; role = role; token_version = pos 0 },
  );
  find_all = λ s. ok (s ∷ []);
  delete = λ id s. (none, s);
}

abbrev pub passwords : Passwords
passwords = record {
  hash_password = λ p. ok (append "#" p);
  verify_password = λ hashed p. hashed == append "#" p;
}
