-- ===== src/Redis/Command/Handlers.antt =====
-- The handlers of the commands, and `Handle` (src/internal/server/redisserver/command.go). The arguments
-- are those behind the name.
use tokmesh_go.Base.{
  ℕ, ◌+◌, ◌-◌, Bool, true, false, not, ◌||◌, Option, none, some, List, [], ◌∷◌, map, length, ltb,
  ◌==◌, if◌then◌else◌,
}
use tokmesh_go.Domain.Str.{Str, is_empty, bytes}
use tokmesh_go.Domain.Strings.{str_eq}
use tokmesh_go.Domain.Error.{Result, ok, err, is_domain_error, session_not_found, session_expired}
use tokmesh_go.Domain.Session.{Session}
use tokmesh_go.Redis.Resp.{Number, pos, negsuc}
use tokmesh_go.Redis.Glob.{match_glob}
use tokmesh_go.Redis.Command.{
  SetRequest, Services, Syntax, Failure, wrong_number, syntax_error, not_an_integer, invalid_json,
  invalid_cursor, token_required, token_rotation, marshal_failed, token_invalid, touch_not_found,
  service, Reply, simple, bulk, null_bulk, integer, failure, array, Parsed, refused, parsed,
  set_options, scan_options,
}

abbrev pub is_zero : Number → Bool
is_zero (pos n) = n == 0
is_zero (negsuc n) = false

abbrev pub is_positive : Number → Bool
is_positive (pos n) = ltb 0 n
is_positive (negsuc n) = false

-- `cursor + 1`
abbrev pub next_number : Number → Number
next_number (pos n) = pos (n + 1)
next_number (negsuc n) = if n == 0 then pos 0 else negsuc (n - 1)

abbrev pub same_number : ℕ → Number → Bool
same_number n (pos m) = n == m
same_number n (negsuc m) = false

module _ (sv : Services) (syn : Syntax) (s : sv.State) where
  abbrev pub Answer : Type 0
  Answer = sv.State × List Reply

  abbrev pub answers : Reply → Answer
  answers r = (s, r ∷ [])

  abbrev pub fails : Failure → Answer
  fails f = answers (failure f)

  unfoldable pub handle_get : List Str → Answer
  handle_get (id ∷ []) = elim (sv.get s id) [
    | err e ↦
        if is_domain_error (sv.get s id) session_not_found
          || is_domain_error (sv.get s id) session_expired
        then answers null_bulk
        else fails (service e)
    | ok x ↦ elim (syn.marshal_session x) [
      | none ↦ fails marshal_failed
      | some b ↦ answers (bulk b)
    ]
  ]
  handle_get _ = fails wrong_number

  -- A reply to an operation that changes the storage.
  abbrev pub replied {ℓ} : {A : Type ℓ} → sv.State × Result A → (A → Reply) → Answer
  replied (t, ok a) f = (t, f a ∷ [])
  replied (t, err e) f = (t, failure (service e) ∷ [])

  -- A lifetime that is not given, or zero, is left to the service.
  abbrev pub nonzero : Option Number → Option Number
  nonzero none = none
  nonzero (some n) = if is_zero n then none else some n

  abbrev pub positive : Option Number → Option Number
  positive none = none
  positive (some n) = if is_positive n then some n else none

  -- SET behind its parsing: a creation with a token, or an update without one.
  unfoldable pub handle_set_request : Str → SetRequest → Option Number → Answer
  handle_set_request id req seconds = elim (sv.get s id) [
    | ok x ↦
        if is_empty req.token
        then replied (sv.update s id req (positive seconds)) (λ _. simple (bytes "OK"))
        else fails token_rotation
    | err e ↦
        if not (is_domain_error (sv.get s id) session_not_found)
        then fails (service e)
        else if is_empty req.token
        then fails token_required
        else replied (sv.create_with_token s id req (nonzero seconds)) (λ _. simple (bytes "OK"))
  ]

  unfoldable pub handle_set : List Str → Answer
  handle_set (id ∷ value ∷ options) = elim (set_options syn none options) [
    | refused f ↦ fails f
    | parsed seconds ↦ elim (syn.parse_request value) [
      | none ↦ fails invalid_json
      | some req ↦ handle_set_request id req seconds
    ]
  ]
  handle_set _ = fails wrong_number

  unfoldable pub handle_expire : List Str → Answer
  handle_expire (id ∷ seconds ∷ []) = elim (syn.parse_int seconds) [
    | none ↦ fails not_an_integer
    | some n ↦
        let r = sv.renew s id n in
        if is_domain_error r.1 session_not_found
        then (r.0, integer (pos 0) ∷ [])
        else replied r (λ _. integer (pos 1))
  ]
  handle_expire _ = fails wrong_number

  -- -1 for no expiry, -2 for no key.
  unfoldable pub handle_ttl : List Str → Answer
  handle_ttl (id ∷ []) = elim (sv.get s id) [
    | err e ↦
        if is_domain_error (sv.get s id) session_not_found
        then answers (integer (negsuc 1))
        else fails (service e)
    | ok x ↦
        if x.expires_at == 0
        then answers (integer (negsuc 0))
        else elim (sv.remaining_seconds s x) [
          | none ↦ answers (integer (negsuc 1))
          | some n ↦ answers (integer (pos n))
        ]
  ]
  handle_ttl _ = fails wrong_number

  abbrev pub is_ok {ℓ} : {A : Type ℓ} → Result A → Bool
  is_ok (ok a) = true
  is_ok (err e) = false

  -- The loop of EXISTS.
  unfoldable pub count_existing : List Str → ℕ
  count_existing [] = 0
  count_existing (id ∷ ids) = (if is_ok (sv.get s id) then 1 else 0) + count_existing ids

  unfoldable pub handle_exists : List Str → Answer
  handle_exists [] = fails wrong_number
  handle_exists (id ∷ ids) = answers (integer (pos (count_existing (id ∷ ids))))

  -- The items whose IDs fit the pattern.
  unfoldable pub matching : Str → List Session → List Session
  matching pattern_text [] = []
  matching pattern_text (x ∷ l) =
      let rest = matching pattern_text l in
      if is_empty pattern_text || str_eq pattern_text (bytes "*") || match_glob pattern_text x.id
      then x ∷ rest
      else rest

  unfoldable pub handle_scan : List Str → Answer
  handle_scan [] = fails wrong_number
  handle_scan (cursor ∷ options) = elim (syn.parse_int cursor) [
    | none ↦ fails invalid_cursor
    | some c ↦ elim (scan_options syn (record { pattern_text = []; count = pos 10 }) options) [
      | refused f ↦ fails f
      | parsed so ↦ elim (sv.list s (next_number c) so.count) [
        | err e ↦ fails (service e)
        | ok items ↦
            let found = matching so.pattern_text items in
            let next = if same_number (length items) so.count then next_number c else pos 0 in
            (
              s,
              array 2
                  ∷ bulk (syn.format_int next)
                  ∷ array (length found)
                  ∷ map (λ (x : Session). bulk x.id) found,
            )
      ]
    ]
  ]

  -- The lifetime of TM.CREATE, from the arguments behind the value.
  unfoldable pub create_seconds : List Str → Parsed (Option Number)
  create_seconds (o ∷ v ∷ _) =
      if str_eq (syn.to_upper o) (bytes "TTL")
      then elim (syn.parse_int v) [
        | none ↦ refused not_an_integer
        | some n ↦ parsed (nonzero (some n))
      ]
      else parsed none
  create_seconds _ = parsed none

  unfoldable pub handle_tm_create : List Str → Answer
  handle_tm_create (id ∷ value ∷ options) = elim (create_seconds options) [
    | refused f ↦ fails f
    | parsed seconds ↦ elim (syn.parse_request value) [
      | none ↦ fails invalid_json
      | some req ↦ replied (sv.create_with_id s id req seconds) bulk
    ]
  ]
  handle_tm_create _ = fails wrong_number

  abbrev pub validated : sv.State × Bool → Answer
  validated (t, true) = (t, simple (bytes "OK") ∷ [])
  validated (t, false) = (t, failure token_invalid ∷ [])

  unfoldable pub handle_tm_validate : (ip : Str) → List Str → Answer
  handle_tm_validate ip (token ∷ []) = validated (sv.validate_token s token false ip)
  handle_tm_validate ip (token ∷ o ∷ []) =
      if str_eq (syn.to_upper o) (bytes "TOUCH")
      then validated (sv.validate_token s token true ip)
      else fails syntax_error
  handle_tm_validate ip _ = fails wrong_number

  unfoldable pub handle_tm_touch : (ip : Str) → List Str → Answer
  handle_tm_touch ip (id ∷ []) =
      let r = sv.touch s id ip in
      if is_domain_error r.1 session_not_found || is_domain_error r.1 session_expired
      then (r.0, failure touch_not_found ∷ [])
      else replied r (λ n. integer (pos n))
  handle_tm_touch ip _ = fails wrong_number

  unfoldable pub handle_tm_revoke_user : List Str → Answer
  handle_tm_revoke_user (user_id ∷ []) =
      replied (sv.revoke_by_user s user_id) (λ n. integer (pos n))
  handle_tm_revoke_user _ = fails wrong_number
