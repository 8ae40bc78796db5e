-- ===== src/Service/Lifecycle/Sound.antt =====
-- `Update` and `Renew` of `SessionService` on the in-memory store: the indexes stay as they should be.
use tokmesh_go.Base.{ℕ, ◌≡◌, ap, sym, ◌∙◌, some, inl, inr, arith}
use tokmesh_go.Domain.Str.{Str}
use tokmesh_go.Domain.Error.{Result-cases, ok}
use tokmesh_go.Domain.Session.{Session, validate, set_expiration, incr_version}
use tokmesh_go.Memory.Store.{Store}
use tokmesh_go.Memory.Store.Invariant.{IsConsistent}
use tokmesh_go.Memory.Change
use tokmesh_go.Memory.Consistent.Update
use tokmesh_go.Service.Repository.InMemory.{in_memory, lookup, own_id, update_fits, get_lookup}
use tokmesh_go.Service.Lifecycle.{UpdateRequest, millis, get_valid, amended, amend, update}

module _ (s : Store) (c : IsConsistent s) where
  valid_found :
      (now : ℕ) (id : Str) (x : Session)
      → get_valid in_memory now s id ≡ ok x
      → lookup s id ≡ some x
  unfolding get_valid
  valid_found now id x h = ground (arith, get_lookup now s id, h)

  -- A write of a session with the ID, user and token of the stored one.
  rewritten-IsConsistent :
      (id : Str) (x y : Session)
      → lookup s id ≡ some x
      → y.id ≡ x.id
      → y.user_id ≡ x.user_id
      → y.token_hash ≡ x.token_hash
      → validate y ≡ ok tt
      → IsConsistent (Change.update s y x.version).0
  rewritten-IsConsistent id x y here same_id same_user same_token fits =
      let found : lookup s y.id ≡ some x = ap (lookup s) (same_id ∙ own_id s id x c here) ∙ here in
      let done = (update_fits s x y c fits found (sym same_token)).0 in
      Update.update-IsConsistent s y x.version c (λ z e. ground (arith, found, e, same_user))
        (λ e. ground (arith, done, e))

  amended_id : (now_ns : ℕ) (req : UpdateRequest) (x : Session) → (amended now_ns req x).id ≡ x.id
  unfolding amended set_expiration incr_version
  amended_id now_ns req x = ground arith

  amended_user :
      (now_ns : ℕ) (req : UpdateRequest) (x : Session) → (amended now_ns req x).user_id ≡ x.user_id
  unfolding amended set_expiration incr_version
  amended_user now_ns req x = ground arith

  amended_token :
      (now_ns : ℕ) (req : UpdateRequest) (x : Session)
      → (amended now_ns req x).token_hash ≡ x.token_hash
  unfolding amended set_expiration incr_version
  amended_token now_ns req x = ground arith

  amend-IsConsistent :
      (now_ns : ℕ) (req : UpdateRequest) (id : Str) (x : Session)
      → lookup s id ≡ some x
      → IsConsistent (amend in_memory now_ns s req x).0
  unfolding amend
  amend-IsConsistent now_ns req id x here = elim (Result-cases (validate (amended now_ns req x))) [
    | inr (e, f) ↦ ground (arith, f, c)
    | inl (t, f) ↦
        let kept =
          rewritten-IsConsistent id x (amended now_ns req x) here (amended_id now_ns req x)
            (amended_user now_ns req x) (amended_token now_ns req x) f in
        ground (arith, f, c, kept)
  ]

  -- `Update` of the session service on a consistent in-memory store keeps it consistent, whatever
  -- the request.
  pub update_request-IsConsistent :
      (now_ns : ℕ) (req : UpdateRequest) → IsConsistent (update in_memory now_ns s req).0
  unfolding update
  update_request-IsConsistent now_ns req =
      elim (Result-cases (get_valid in_memory (millis now_ns) s req.session_id)) [
        | inr (e, f) ↦ ground (arith, f, c)
        | inl (x, f) ↦ ground (
          arith,
          f,
          c,
          amend-IsConsistent now_ns req req.session_id x
              (valid_found (millis now_ns) req.session_id x f),
        )
      ]
