-- ===== src/Security/AuthService.antt =====
-- `AuthService` of src/security/auth.ts. The token library and the hash are parameters, as is the
-- clock; the new identifier is an argument. A call that awaits the hash or its comparison is two
-- functions, before and after the await, and the whole call is one after the other. A user's
-- metadata is always the empty object and is left out.
pub mod Usernames
pub mod Tokens
mod Tests
use mathlib.Core.Option
use sync_engine.Base.{
  ℕ, String, Bool, true, false, ◌||◌, Option, none, some, List, [], ◌∷◌, map, length, find, any,
  str_eq, is_some, if◌then◌else◌,
}
use sync_engine.Base.Map
use sync_engine.Base.Map.{Map}

pub record AuthUser : Type 0 where
  pub id : String
  pub username : String
  pub password_hash : String
  pub roles : List String
  pub created_at : ℕ
  pub last_login : Option ℕ

pub record AuthToken : Type 0 where
  pub user_id : String
  pub username : String
  pub roles : List String
  pub iat : ℕ
  pub exp : ℕ

-- `Omit<AuthUser, 'passwordHash'>`
pub record SafeUser : Type 0 where
  pub id : String
  pub username : String
  pub roles : List String
  pub created_at : ℕ
  pub last_login : Option ℕ

pub data AuthResult : Type 0 where
  failure : String → AuthResult
  success : String → SafeUser → AuthResult

-- The blacklist is a set of tokens.
pub record AuthService : Type 0 where
  pub users : Map AuthUser
  pub token_blacklist : List String

-- `jwt.sign` of an identifier, a name and roles at a time, `jwt.verify` of a token at a time, and
-- `bcrypt.compare` of a password with a hash.
pub record Libraries : Type 0 where
  pub sign : String → String → List String → ℕ → String
  pub verify : String → ℕ → Option AuthToken
  pub compare : String → String → Bool

unfoldable pub create : AuthService
create = record { users = []; token_blacklist = [] }

abbrev pub safe_user : AuthUser → SafeUser
safe_user u = record {
  id = u.id;
  username = u.username;
  roles = u.roles;
  created_at = u.created_at;
  last_login = u.last_login;
}

-- `Array.from(this.users.values()).find(u => u.username === username)`
unfoldable pub find_user : AuthService → String → Option AuthUser
find_user s username = find (λ u. str_eq u.username username) (Map.values s.users)

abbrev pub generate_token : Libraries → AuthUser → ℕ → String
generate_token lib u now = lib.sign u.id u.username u.roles now

abbrev pub new_user : String → String → String → List String → ℕ → AuthUser
new_user id username hash roles now = record {
  id = id;
  username = username;
  password_hash = hash;
  roles = roles;
  created_at = now;
  last_login = none;
}

-- `createUser` once the hash is there.
unfoldable pub store_user :
    Libraries → AuthService → String → String → String → List String → ℕ → AuthService × AuthResult
store_user lib s id username hash roles now =
    let u = new_user id username hash roles now in
    (record s { users = Map.set s.users id u }, success (generate_token lib u now) (safe_user u))

-- `createUser` with the hash of its password.
unfoldable pub create_user :
    Libraries → AuthService → String → String → String → List String → ℕ → AuthService × AuthResult
unfolding find_user store_user
create_user lib s id username hash roles now =
    if is_some (find_user s username)
    then (s, failure "Username already exists")
    else store_user lib s id username hash roles now

abbrev pub logged_in : AuthUser → ℕ → AuthUser
logged_in u now = record u { last_login = some now }

-- `authenticate` once the password of the user found is compared. The object is changed in the map if it
-- still stands there.
unfoldable pub finish_login :
    Libraries → AuthService → AuthUser → Bool → ℕ → AuthService × AuthResult
finish_login lib s u false now = (s, failure "Invalid credentials")
finish_login lib s u true now = (
  elim (Map.get s.users u.id) [
    | none ↦ s
    | some v ↦ record s { users = Map.set s.users u.id (logged_in v now) }
  ],
  success (generate_token lib u now) (safe_user (logged_in u now)),
)

unfoldable pub authenticate :
    Libraries → AuthService → String → String → ℕ → AuthService × AuthResult
unfolding find_user finish_login
authenticate lib s username password now = elim (find_user s username) [
  | none ↦ (s, failure "Invalid credentials")
  | some u ↦ finish_login lib s u (lib.compare password u.password_hash) now
]

unfoldable pub verify_token : Libraries → AuthService → String → ℕ → Option AuthToken
verify_token lib s token now =
    if any (str_eq token) s.token_blacklist then none else lib.verify token now

unfoldable pub revoke_token : AuthService → String → AuthService
revoke_token s token =
    if any (str_eq token) s.token_blacklist
    then s
    else record s { token_blacklist = token ∷ s.token_blacklist }

unfoldable pub has_role : AuthToken → String → Bool
has_role t role = any (str_eq role) t.roles || any (str_eq "admin") t.roles

unfoldable pub has_any_role : AuthToken → List String → Bool
unfolding has_role
has_any_role t roles = any (has_role t) roles

abbrev pub get_user : AuthService → String → Option SafeUser
get_user s id = Option.map safe_user (Map.get s.users id)

abbrev pub get_all_users : AuthService → List SafeUser
get_all_users s = map safe_user (Map.values s.users)

-- `updatePassword` with the hash of the new password. The user is looked up before the await, and the
-- answer is whether it was there then.
unfoldable pub set_password : AuthService → String → String → AuthService
set_password s id hash = elim (Map.get s.users id) [
  | none ↦ s
  | some u ↦ record s { users = Map.set s.users id (record u { password_hash = hash }) }
]

unfoldable pub update_password : AuthService → String → String → AuthService × Bool
unfolding set_password
update_password s id hash =
    if Map.has s.users id then (set_password s id hash, true) else (s, false)

unfoldable pub delete_user : AuthService → String → AuthService × Bool
delete_user s id = (record s { users = Map.delete s.users id }, Map.has s.users id)

-- `getStats`: the users and the revoked tokens.
abbrev pub get_stats : AuthService → ℕ × ℕ
get_stats s = (Map.size s.users, length s.token_blacklist)
