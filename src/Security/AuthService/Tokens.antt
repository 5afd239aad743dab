-- ===== src/Security/AuthService/Tokens.antt =====
-- Who is let in by src/security/auth.ts, and for how long.
use sync_engine.Base.{
  ℕ, ◌≡◌, refl, sym, subst, inl, inr, String, true, none, some, List, [], ◌∷◌, arith, any, str_eq,
  eq_iff, is_some, if◌then◌else◌, Option-cases, Bool-cases,
}
use sync_engine.Base.Map
use sync_engine.Base.Map.{Map}
use sync_engine.Base.Map.Laws.{get-set_self, get-delete, Distinct-delete}
use sync_engine.Security.AuthService.{
  AuthService, AuthUser, Libraries, failure, success, find_user, store_user, create_user,
  finish_login, authenticate, revoke_token, set_password, update_password, delete_user, new_user,
  verify_token, safe_user, logged_in, get_user,
}
use sync_engine.Security.AuthService.Usernames.{
  IsUnique, find-some, find-none, create_user-IsUnique, Call, call, calls, creates, logs_in,
  revokes, updates, deletes,
}

-- A name finds the user that has it.
find_user-get :
    (s : AuthService) (k : String) (u : AuthUser)
    → IsUnique s.users
    → Map.get s.users k ≡ some u
    → find_user s u.username ≡ some u
unfolding find_user
find_user-get s k u v e = elim (Option-cases (find_user s u.username)) [
  | inl f ↦ absurd (find-none s.users u.username k u f e refl)
  | inr (w, f) ↦
      let (j, g, same) = find-some s.users u.username w v.distinct f in
      ground (arith, v.apart j k w u g e same)
]

-- With distinct names and a free name: after the user is created, a login under the name succeeds for exactly
-- the passwords that the hash accepts, with a token signed for that user and the time of the login as
-- the last one; any other password is refused.
pub authenticate-create_user :
    (lib : Libraries) (s : AuthService) (id name hash password : String) (roles : List String)
    (now later : ℕ)
    → IsUnique s.users
    → find_user s name ≡ none
    → let u = new_user id name hash roles now in
      (authenticate lib (create_user lib s id name hash roles now).0 name password later).1 ≡ (
        if lib.compare password hash
        then success (lib.sign id name roles later) (safe_user (logged_in u later))
        else failure "Invalid credentials")
unfolding authenticate finish_login create_user store_user
authenticate-create_user lib s id name hash password roles now later v free =
    let u = new_user id name hash roles now in
    let made : (create_user lib s id name hash roles now).0.users ≡ Map.set s.users id u =
      rw (free, create_user, store_user) refl in
    let s' : AuthService = (create_user lib s id name hash roles now).0 in
    let held : Map.get s'.users id ≡ some u =
      subst (λ m. Map.get m id ≡ some u) (sym made) (get-set_self s.users id u) in
    let found : find_user s' name ≡ some u =
      find_user-get s' id u (create_user-IsUnique lib s id name hash roles now v) held in
    elim (Bool-cases (lib.compare password hash)) [
      | inl ok ↦ rw (found, authenticate, ok) refl
      | inr bad ↦ rw (found, authenticate, bad) refl
    ]

Out : AuthService → String → Type 0
Out s token = any (str_eq token) s.token_blacklist ≡ true

revoke_token-Out : (s : AuthService) (t token : String) → Out s token → Out (revoke_token s t) token
unfolding Out revoke_token
revoke_token-Out s t token h = ground (arith, h)

revoked-Out : (s : AuthService) (token : String) → Out (revoke_token s token) token
unfolding Out revoke_token
revoked-Out s token = ground (arith, eq_iff token token)

blacklist-call :
    (lib : Libraries) (s : AuthService) (c : Call) (token : String)
    → Out s token
    → Out (call lib s c) token
unfolding Out call create_user store_user authenticate finish_login update_password set_password
    delete_user
blacklist-call lib s (creates id username hash roles now) token h =
    elim (Bool-cases (is_some (find_user s username))) [
      | inl e ↦ rw (e, call, create_user) h
      | inr e ↦ rw (e, call, create_user) h
    ]
blacklist-call lib s (logs_in username password now) token h = ground arith
blacklist-call lib s (revokes t) token h = revoke_token-Out s t token h
blacklist-call lib s (updates id hash) token h = ground arith
blacklist-call lib s (deletes id) token h = h

calls-Out :
    (lib : Libraries) (s : AuthService) (cs : List Call) (token : String)
    → Out s token
    → Out (calls lib s cs) token
unfolding calls
calls-Out lib s [] token h = h
calls-Out lib s (c ∷ cs) token h =
    calls-Out lib (call lib s c) cs token (blacklist-call lib s c token h)

-- A token that was revoked is never verified again, whatever calls follow and at any time.
pub revoked_never_verifies :
    (lib : Libraries) (s : AuthService) (token : String) (cs : List Call) (now : ℕ)
    → verify_token lib (calls lib (revoke_token s token) cs) token now ≡ none
unfolding verify_token Out
revoked_never_verifies lib s token cs now =
    rw (calls-Out lib (revoke_token s token) cs token (revoked-Out s token), verify_token) refl

-- With distinct names: once a user is deleted its identifier and its name are unknown and every login under
-- the name is refused, but each token that was verified before is verified as before.
pub delete_user-verify_token :
    (lib : Libraries) (s : AuthService) (id password token : String) (u : AuthUser) (now : ℕ)
    → IsUnique s.users
    → Map.get s.users id ≡ some u
    → let s' = (delete_user s id).0 in
      (get_user s' id ≡ none)
      × (authenticate lib s' u.username password now ≡ (s', failure "Invalid credentials"))
      × (verify_token lib s' token now ≡ verify_token lib s token now)
unfolding delete_user verify_token authenticate find_user
delete_user-verify_token lib s id password token u now v e =
    let s' = (delete_user s id).0 in
    let gone : Map.get s'.users id ≡ none =
      ground (arith, get-delete s.users id id, eq_iff id id) in
    let unknown : find_user s' u.username ≡ none = elim (Option-cases (find_user s' u.username)) [
      | inl f ↦ f
      | inr (w, f) ↦
          let (j, g, same) =
            find-some s'.users u.username w (Distinct-delete s.users id v.distinct) f in
          absurd
            (ground (arith, eq_iff id j, get-delete s.users id j, v.apart j id w u, g, same, e))
    ] in
    (rw (gone) refl, rw (unknown, authenticate) refl, refl)
