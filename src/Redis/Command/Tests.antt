-- ===== src/Redis/Command/Tests.antt =====
-- Services that count their writes, and each theorem on them.
use tokmesh_go.Base.{
  ℕ, ◌+◌, ◌≡◌, refl, true, false, Option, none, some, List, [], ◌∷◌, if◌then◌else◌,
}
use tokmesh_go.Domain.Str.{Str, is_empty, bytes}
use tokmesh_go.Domain.Strings.{str_eq}
use tokmesh_go.Domain.Error.{ok, err, session_not_found, is_domain_error}
use tokmesh_go.Domain.ApiKey.{validator}
use tokmesh_go.Redis.Resp.{pos}
use tokmesh_go.Redis.Command.{
  ApiKeyInfo, ConnState, Services, Syntax, no_auth, permission_denied, Reply, failure, simple, bulk,
  array, scan_options, del, role_allows, command_of, check_permission, credentials, split_colon,
}
use tokmesh_go.Redis.Command.Handlers.{handle_get, handle_ttl, handle_scan, matching}
use tokmesh_go.Memory.Samples.{alice, bob}
use tokmesh_go.Redis.Command.Handle.{
  handle, handle_command, handle_auth, handle_del, revoke_all, guarded, run_command,
}
use tokmesh_go.Redis.Command.Access.{
  table_allows, role_name, unauthenticated_refused, validator_changes_nothing,
  role_allows-has_permission,
}

-- the state counts the writes; no session is found
abbrev counting : Services
counting = record {
  State = ℕ;
  get = λ s id. err session_not_found;
  create_with_token = λ s id req t. (s + 1, ok tt);
  create_with_id = λ s id req t. (s + 1, ok id);
  update = λ s id req t. (s + 1, ok tt);
  revoke = λ s id. (s + 1, ok tt);
  renew = λ s id t. (s + 1, ok tt);
  touch = λ s id ip. (s + 1, ok 0);
  revoke_by_user = λ s id. (s + 1, ok 1);
  list = λ s page size. ok [];
  validate_token = λ s token touch ip. (s, false);
  validate_api_key = λ s id secret. (s, some (record { key_id = id; role = bytes "validator" }));
  remaining_seconds = λ s x. none;
}

abbrev plain : Syntax
plain = record {
  to_upper = λ s. s;
  parse_int = λ s. none;
  parse_request = λ s. none;
  marshal_session = λ x. none;
  format_int = λ n. [];
}

abbrev outside : ConnState
outside = record { authenticated = false; api_key = none }

abbrev reader : ApiKeyInfo
reader = record { key_id = bytes "k"; role = bytes "validator" }

abbrev inside : ConnState
inside = record { authenticated = true; api_key = some reader }

abbrev del_args : List Str
del_args = bytes "DEL" ∷ bytes "s" ∷ []

unauthenticated_refused_example :
    ◌≡◌ {A = ℕ × Option ConnState × List Reply}
      (handle counting plain true [] 7 outside del_args)
      (7, some outside, failure no_auth ∷ [])
unfolding command_of str_eq
unauthenticated_refused_example =
    unauthenticated_refused counting plain true [] 7 outside (bytes "DEL") (bytes "s" ∷ []) refl
      refl

validator_changes_nothing_example : (handle counting plain true [] 7 inside del_args).0 ≡ 7
unfolding command_of str_eq
validator_changes_nothing_example =
    validator_changes_nothing counting plain true [] 7 inside reader (bytes "DEL") (bytes "s" ∷ [])
      refl refl refl refl

role_allows-has_permission_example :
    table_allows validator del ≡ role_allows (role_name validator) del
role_allows-has_permission_example = role_allows-has_permission validator del refl refl

-- a page of 100 at most, from which 200 are asked
abbrev paged : Services
paged = record counting { list = λ s page size. ok (alice ∷ bob ∷ []) }

abbrev numbers : Syntax
numbers = record plain { parse_int = λ s. if is_empty s then some (pos 0) else some (pos 200) }

-- the reply ends the scan, although the page may have been cut
scan_cut :
    (handle_scan paged numbers 7 ([] ∷ bytes "COUNT" ∷ bytes "200" ∷ [])).1
    ≡ array 2 ∷ bulk [] ∷ array 2 ∷ bulk alice.id ∷ bulk bob.id ∷ []
unfolding handle_scan scan_options matching str_eq
scan_cut = refl

program : Unit {0}
unfolding handle handle_command handle_auth handle_del revoke_all guarded run_command handle_get
    handle_ttl role_allows command_of check_permission credentials split_colon str_eq
    is_domain_error
program = tt

-- AUTH in its two forms
logs_in :
    ◌≡◌ {A = ℕ × Option ConnState × List Reply}
      (handle counting plain true [] 7 outside (bytes "AUTH" ∷ bytes "k:secret" ∷ []))
      (7, some inside, simple (bytes "OK") ∷ [])
unfolding program
logs_in = refl

denied : (handle counting plain true [] 7 inside del_args).2 ≡ failure permission_denied ∷ []
unfolding program
denied = refl

admin_deletes :
    (handle counting plain true [] 7
      (record inside { api_key = some (record { key_id = []; role = bytes "admin" }) })
      (bytes "DEL" ∷ bytes "a" ∷ bytes "b" ∷ [])).0
    ≡ 9
unfolding program
admin_deletes = refl
