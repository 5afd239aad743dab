-- ===== src/Security/AuthService/Tests.antt =====
-- Runs of the service of src/security/auth.ts, with libraries that keep names and passwords as they are.
use sync_engine.Base.{◌≡◌, refl, none, some, List, [], ◌∷◌, arith, str_eq, eq_iff}
use sync_engine.Base.Map
use sync_engine.Base.Map.{Map}
use sync_engine.Security.AuthService.{
  AuthService, Libraries, create, failure, success, find_user, store_user, create_user,
  authenticate, revoke_token, delete_user, new_user, verify_token, safe_user, logged_in, get_user,
}
use sync_engine.Security.AuthService.Usernames.{
  IsUnique, Call, call, calls, creates, logs_in, revokes, updates, deletes, calls-IsUnique,
  create_user_raced,
}
use sync_engine.Security.AuthService.Tokens.{
  authenticate-create_user, revoked_never_verifies, delete_user-verify_token,
}

abbrev lib : Libraries
lib = record {
  sign = λ id name roles now. name;
  verify = λ token now.
      some (record { user_id = "1"; username = token; roles = []; iat = 0; exp = 100 });
  compare = λ password hash. str_eq password hash;
}

abbrev some_calls : List Call
some_calls =
    creates "1" "ann" "pw" [] 0
    ∷ creates "2" "ann" "other" [] 1
    ∷ creates "3" "bob" "pw" [] 2
    ∷ logs_in "ann" "pw" 5
    ∷ revokes "ann"
    ∷ updates "3" "new"
    ∷ deletes "1"
    ∷ []

calls-IsUnique_example : IsUnique (calls lib create some_calls).users
calls-IsUnique_example = calls-IsUnique lib some_calls

create_user_raced_example :
    let (s₁, first) = store_user lib create "1" "ann" "pw" [] 0 in
    let (s₂, second) = store_user lib s₁ "2" "ann" "other" [] 1 in
    (first ≡ (create_user lib create "1" "ann" "pw" [] 0).1)
    × (second ≡ (create_user lib create "2" "ann" "other" [] 1).1)
    × (Map.get s₂.users "1" ≡ some (new_user "1" "ann" "pw" [] 0))
    × (Map.get s₂.users "2" ≡ some (new_user "2" "ann" "other" [] 1))
unfolding create find_user Map.values
create_user_raced_example =
    create_user_raced lib create "ann" "1" "2" "pw" "other" [] [] 0 1
      (ground (arith, eq_iff "1" "2")) refl

abbrev two_users : AuthService
two_users = calls lib create (creates "1" "ann" "pw" [] 0 ∷ creates "3" "bob" "pw" [] 2 ∷ [])

two_users-IsUnique : IsUnique two_users.users
two_users-IsUnique =
    calls-IsUnique lib (creates "1" "ann" "pw" [] 0 ∷ creates "3" "bob" "pw" [] 2 ∷ [])

free_name : find_user two_users "cid" ≡ none
unfolding calls call create_user store_user create find_user Map.values Map.set
free_name = refl

authenticate-create_user_example :
    (authenticate lib (create_user lib two_users "4" "cid" "pw" [] 6).0 "cid" "pw" 9).1
    ≡ success "cid" (safe_user (logged_in (new_user "4" "cid" "pw" [] 6) 9))
authenticate-create_user_example =
    authenticate-create_user lib two_users "4" "cid" "pw" "pw" [] 6 9 two_users-IsUnique free_name

revoked_never_verifies_example :
    verify_token lib (calls lib (revoke_token two_users "ann") some_calls) "ann" 7 ≡ none
revoked_never_verifies_example = revoked_never_verifies lib two_users "ann" some_calls 7

ann_held : Map.get two_users.users "1" ≡ some (new_user "1" "ann" "pw" [] 0)
unfolding calls call create_user store_user create find_user Map.values Map.set Map.get
ann_held = refl

delete_user-verify_token_example :
    let s' = (delete_user two_users "1").0 in
    (get_user s' "1" ≡ none)
    × (authenticate lib s' "ann" "pw" 9 ≡ (s', failure "Invalid credentials"))
    × (verify_token lib s' "ann" 9 ≡ verify_token lib two_users "ann" 9)
delete_user-verify_token_example =
    delete_user-verify_token lib two_users "1" "pw" "ann" (new_user "1" "ann" "pw" [] 0) 9
      two_users-IsUnique ann_held
