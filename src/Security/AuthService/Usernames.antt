-- ===== src/Security/AuthService/Usernames.antt =====
-- Whether the names of the users of src/security/auth.ts stay apart.
use sync_engine.Base.{
  ℕ, ◌≡◌, ◌≢◌, refl, sym, ◌∙◌, inl, inr, String, Bool, true, false, none, some, List, [], ◌∷◌,
  arith, find, any, subst, str_eq, eq_iff, Option-cases, Bool-cases,
}
use sync_engine.Base.Map
use sync_engine.Base.Map.{Map}
use sync_engine.Base.Map.Laws.{get-set, get-set_self, get-delete, Distinct-set, Distinct-delete}
use sync_engine.Security.AuthService.{
  AuthService, AuthUser, Libraries, create, find_user, store_user, create_user, finish_login,
  authenticate, logged_in, revoke_token, set_password, update_password, delete_user, new_user,
}

-- Whole calls, one after the other.
pub data Call : Type 0 where
  creates : String → String → String → List String → ℕ → Call
  logs_in : String → String → ℕ → Call
  revokes : String → Call
  updates : String → String → Call
  deletes : String → Call

unfoldable pub call : Libraries → AuthService → Call → AuthService
call lib s (creates id username hash roles now) = (create_user lib s id username hash roles now).0
call lib s (logs_in username password now) = (authenticate lib s username password now).0
call lib s (revokes token) = revoke_token s token
call lib s (updates id hash) = (update_password s id hash).0
call lib s (deletes id) = (delete_user s id).0

unfoldable pub calls : Libraries → AuthService → List Call → AuthService
calls lib s [] = s
calls lib s (c ∷ cs) = calls lib (call lib s c) cs

-- Each user stands once, under its identifier, and no two have a name in common.
pub record IsUnique (users : Map AuthUser) : Type 0 where
  pub distinct : Map.Distinct users
  pub keyed : (k : String) (u : AuthUser) → Map.get users k ≡ some u → u.id ≡ k
  pub apart :
      (j k : String) (u v : AuthUser)
      → Map.get users j ≡ some u
      → Map.get users k ≡ some v
      → u.username ≡ v.username
      → j ≡ k

pub find-none :
    (m : Map AuthUser) (name k : String) (u : AuthUser)
    → find (λ u. str_eq u.username name) (Map.values m) ≡ none
    → Map.get m k ≡ some u
    → u.username ≢ name
unfolding Map.values Map.get
find-none [] name k u h e = absurd (cc)
find-none ((j, v) ∷ m) name k u h e =
    ground (arith, eq_iff v.username name, eq_iff j k, find-none m name k u)

pub find-some :
    (m : Map AuthUser) (name : String) (u : AuthUser)
    → Map.Distinct m
    → find (λ u. str_eq u.username name) (Map.values m) ≡ some u
    → (k : String) × (Map.get m k ≡ some u) × (u.username ≡ name)
unfolding Map.values Map.get Map.Distinct
find-some [] name u d h = absurd (cc)
find-some ((j, v) ∷ m) name u d h = elim (Bool-cases (str_eq v.username name)) [
  | inl same ↦ (j, ground (arith, eq_iff j j), ground (arith, eq_iff v.username name))
  | inr other ↦
      let (k, e, n) = find-some m name u d.1 (ground arith) in (k, ground (arith, eq_iff j k), n)
]

-- A user that has the key of an old one, and its name or a new one, or a fresh user with a name that
-- nobody has.
set-IsUnique :
    (m : Map AuthUser) (w : AuthUser)
    → IsUnique m
    → ((k : String) (u : AuthUser) → Map.get m k ≡ some u → u.username ≡ w.username → k ≡ w.id)
    → IsUnique (Map.set m w.id w)
set-IsUnique m w v free = record {
  distinct = Distinct-set m w.id w v.distinct;
  keyed = λ k u e. ground (arith, eq_iff w.id k, get-set m w.id k w, v.keyed k u);
  apart = λ j k u u' e e' same. ground (
    arith,
    eq_iff w.id j,
    eq_iff w.id k,
    get-set m w.id j w,
    get-set m w.id k w,
    v.apart j k u u',
    free j u,
    free k u',
  );
}

delete-IsUnique : (m : Map AuthUser) (id : String) → IsUnique m → IsUnique (Map.delete m id)
delete-IsUnique m id v = record {
  distinct = Distinct-delete m id v.distinct;
  keyed = λ k u e. ground (arith, get-delete m id k, v.keyed k u);
  apart =
      λ j k u u' e e' same. ground (arith, get-delete m id j, get-delete m id k, v.apart j k u u');
}

-- A user changed in place keeps its identifier and its name.
change-IsUnique :
    (m : Map AuthUser) (id : String) (u w : AuthUser)
    → IsUnique m
    → Map.get m id ≡ some u
    → w.id ≡ u.id
    → w.username ≡ u.username
    → IsUnique (Map.set m id w)
change-IsUnique m id u w v e same name =
    let at : w.id ≡ id = same ∙ v.keyed id u e in
    subst (λ k. IsUnique (Map.set m k w)) at
      (set-IsUnique m w v (λ k x f n. v.apart k id x u f e (n ∙ name) ∙ sym at))

pub create_user-IsUnique :
    (lib : Libraries) (s : AuthService) (id username hash : String) (roles : List String) (now : ℕ)
    → IsUnique s.users
    → IsUnique (create_user lib s id username hash roles now).0.users
unfolding create_user store_user find_user
create_user-IsUnique lib s id username hash roles now v =
    elim (Option-cases (find_user s username)) [
      | inr (u, e) ↦ rw (e, create_user) v
      | inl e ↦
          rw (e, create_user)
            (set-IsUnique s.users (new_user id username hash roles now) v
              (λ k u f same. absurd (find-none s.users username k u e f same)))
    ]

finish_login-IsUnique :
    (lib : Libraries) (s : AuthService) (u : AuthUser) (ok : Bool) (now : ℕ)
    → IsUnique s.users
    → IsUnique (finish_login lib s u ok now).0.users
unfolding finish_login
finish_login-IsUnique lib s u false now v = v
finish_login-IsUnique lib s u true now v = elim (Option-cases (Map.get s.users u.id)) [
  | inl e ↦ rw (e, finish_login) v
  | inr (w, e) ↦
      rw (e, finish_login) (change-IsUnique s.users u.id w (logged_in w now) v e refl refl)
]

authenticate-IsUnique :
    (lib : Libraries) (s : AuthService) (username password : String) (now : ℕ)
    → IsUnique s.users
    → IsUnique (authenticate lib s username password now).0.users
unfolding authenticate
authenticate-IsUnique lib s username password now v = elim (Option-cases (find_user s username)) [
  | inl e ↦ rw (e, authenticate) v
  | inr (u, e) ↦
      rw (e, authenticate)
        (finish_login-IsUnique lib s u (lib.compare password u.password_hash) now v)
]

set_password-IsUnique :
    (s : AuthService) (id hash : String)
    → IsUnique s.users
    → IsUnique (set_password s id hash).users
unfolding set_password
set_password-IsUnique s id hash v = elim (Option-cases (Map.get s.users id)) [
  | inl e ↦ rw (e, set_password) v
  | inr (u, e) ↦
      rw (e, set_password)
        (change-IsUnique s.users id u (record u { password_hash = hash }) v e refl refl)
]

call-IsUnique :
    (lib : Libraries) (s : AuthService) (c : Call)
    → IsUnique s.users
    → IsUnique (call lib s c).users
unfolding call revoke_token update_password delete_user
call-IsUnique lib s (creates id username hash roles now) v =
    create_user-IsUnique lib s id username hash roles now v
call-IsUnique lib s (logs_in username password now) v =
    authenticate-IsUnique lib s username password now v
call-IsUnique lib s (revokes token) v = elim (Bool-cases (any (str_eq token) s.token_blacklist)) [
  | inl e ↦ rw (e, call, revoke_token) v
  | inr e ↦ rw (e, call, revoke_token) v
]
call-IsUnique lib s (updates id hash) v = elim (Bool-cases (Map.has s.users id)) [
  | inl e ↦ rw (e, call, update_password) (set_password-IsUnique s id hash v)
  | inr e ↦ rw (e, call, update_password) v
]
call-IsUnique lib s (deletes id) v = delete-IsUnique s.users id v

calls_keep :
    (lib : Libraries) (s : AuthService) (cs : List Call)
    → IsUnique s.users
    → IsUnique (calls lib s cs).users
unfolding calls
calls_keep lib s [] v = v
calls_keep lib s (c ∷ cs) v = calls_keep lib (call lib s c) cs (call-IsUnique lib s c v)

-- Whatever calls are made of a new service, each one run to its end before the next one starts: every
-- user stands under its own identifier, and no two users have the same name.
pub calls-IsUnique : (lib : Libraries) (cs : List Call) → IsUnique (calls lib create cs).users
unfolding create Map.Distinct Map.get
calls-IsUnique lib cs = calls_keep lib create cs (record {
  distinct = tt;
  keyed = λ k u e. absurd (cc);
  apart = λ j k u v e f same. absurd (cc);
})

-- Two calls of `createUser` with one free name and two new identifiers, of which the second starts before
-- the hash of the first is there: both find the name free, both succeed, and the service then holds
-- two users of that name.
pub create_user_raced :
    (lib : Libraries) (s : AuthService) (name i j hash hash' : String) (roles roles' : List String)
    (now now' : ℕ)
    → i ≢ j
    → find_user s name ≡ none
    → let (s₁, first) = store_user lib s i name hash roles now in
      let (s₂, second) = store_user lib s₁ j name hash' roles' now' in
      (first ≡ (create_user lib s i name hash roles now).1)
      × (second ≡ (create_user lib s j name hash' roles' now').1)
      × (Map.get s₂.users i ≡ some (new_user i name hash roles now))
      × (Map.get s₂.users j ≡ some (new_user j name hash' roles' now'))
unfolding create_user store_user
create_user_raced lib s name i j hash hash' roles roles' now now' apart free = (
  rw (free, create_user) refl,
  rw (free, create_user) refl,
  ground (
    arith,
    eq_iff j i,
    eq_iff i i,
    get-set (Map.set s.users i (new_user i name hash roles now)) j i
        (new_user j name hash' roles' now'),
    get-set s.users i i (new_user i name hash roles now),
  ),
  get-set_self (Map.set s.users i (new_user i name hash roles now)) j
      (new_user j name hash' roles' now'),
)
