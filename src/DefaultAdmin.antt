-- ===== src/DefaultAdmin.antt =====
-- The administrator that the server creates when it starts: internal/config/createDefaultAdminUser.go.
use high_concurrency_ticketi.Prelude.{◌==◌, if◌then◌else◌, ⊤}
use high_concurrency_ticketi.Schema.{Text, User, Role, empty_text}
use high_concurrency_ticketi.Sql.{count_where}
use high_concurrency_ticketi.World.{
  Action, Error, ok, pure, random, or_raise, query, exec, hash_failed, ◌>>=◌,
}
use high_concurrency_ticketi.Users.{has_email, insert_user}
use high_concurrency_ticketi.Auth.{Crypto}

-- The columns of the INSERT; the others have their defaults.
abbrev pub default_admin : Text → Text → Text → User
default_admin name email hash = record {
  id = empty_text;
  name = name;
  email = email;
  phone = empty_text;
  password_hash = hash;
  oauth_provider = empty_text;
  oauth_sub = empty_text;
  role = Role.admin;
  created_at = 0;
  updated_at = 0;
}

-- The name is the parameter for "Admin User".
unfoldable pub create_default_admin :
    {Token : Type 0} → Crypto Token → Text → Text → Text → Action Error ⊤
unfolding query exec insert_user
create_default_admin c name email password = do
  n ← query (λ m db. ok (count_where (has_email email) db.users))
  (if n == 0
      then (random >>= λ salt. or_raise (c.generate salt password) hash_failed >>= λ hash.
          exec (insert_user (default_admin name email hash)) >>= λ u. pure tt)
      else pure tt)
