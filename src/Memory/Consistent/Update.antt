-- ===== src/Memory/Consistent/Update.antt =====
-- `Update`, `UpdateSession` and `Touch`.
use tokmesh_go.Base.{
  ℕ, ◌≡◌, ◌≢◌, sym, refl, false, none, some, ite, arith, Option-cases, Bool-cases, if_pos, inl, inr,
  if◌then◌else◌,
}
use tokmesh_go.Domain.Str.{Str, str_dec, is_empty}
use tokmesh_go.Domain.Error.{Code, ok, err, Result-cases, token_hash_conflict}
use tokmesh_go.Domain.Session.{Session, clone, incr_version, is_expired, validate}
use tokmesh_go.Domain.Session
use tokmesh_go.Cmap
use tokmesh_go.Cmap.Laws as CmapLaws
use tokmesh_go.Memory.Store.{Store, touch, drop_token}
use tokmesh_go.Memory.Store.Invariant.{IsConsistent, points, holds, owned, named}
use tokmesh_go.Memory.Change.{retoken, replace, update, update_session}
use tokmesh_go.Memory.Consistent.Tokens.{get-drop_token, drop_token-IsValid}

module _ (s : Store) (c : IsConsistent s) (id : Str) (x y : Session)
    (here : Cmap.get str_dec s.sessions id ≡ some x) where
  -- A session in the place of another with the same ID, user and token.
  rewrite-IsConsistent :
      y.id ≡ x.id
      → y.user_id ≡ x.user_id
      → y.token_hash ≡ x.token_hash
      → IsConsistent (record s { sessions = Cmap.set str_dec s.sessions id y })
  rewrite-IsConsistent same_id same_user same_hash = record {
    sessions_valid = CmapLaws.set-IsValid str_dec s.sessions c.sessions_valid id y;
    tokens_valid = c.tokens_valid;
    users_valid = c.users_valid;
    ids = λ j.
        unfold named in
        ground (arith, CmapLaws.get-set str_dec s.sessions c.sessions_valid id y j, c.ids j);
    by_token = λ hash j.
        unfold points holds in
        ground
          (arith, CmapLaws.get-set str_dec s.sessions c.sessions_valid id y j, c.by_token hash j);
    by_user = λ user j.
        unfold owned in
        ground
          (arith, CmapLaws.get-set str_dec s.sessions c.sessions_valid id y j, c.by_user user j);
  }

  own_id : x.id ≡ id
  unfolding named
  own_id = ground (arith, c.ids id)

-- `Touch` keeps a store consistent.
pub touch-IsConsistent :
    (now : ℕ) (s : Store) (id ip agent : Str)
    → IsConsistent s
    → IsConsistent (touch now s id ip agent).0
unfolding touch
touch-IsConsistent now s id ip agent c = elim (Option-cases (Cmap.get str_dec s.sessions id)) [
  | inl e ↦ rw (e, touch) c
  | inr (x, e) ↦ elim (Bool-cases (is_expired now x)) [
    | inl old ↦ rw (e, touch) (rw old c)
    | inr live ↦
        rw (e, touch)
          (rw live (
            unfold Session.touch in
            rewrite-IsConsistent s c id x (Session.touch now ip agent x) e refl refl refl))
  ]
]

-- `UpdateSession` keeps a store consistent if the session keeps its user and its token hash.
pub update_session-IsConsistent :
    (s : Store) (y : Session)
    → IsConsistent s
    → ((x : Session)
        → Cmap.get str_dec s.sessions y.id ≡ some x
        → (y.user_id ≡ x.user_id) × (y.token_hash ≡ x.token_hash))
    → IsConsistent (update_session s y).0
unfolding update_session clone
update_session-IsConsistent s y c same = elim (Result-cases (validate y)) [
  | inr (code, e) ↦ rw (e, update_session) c
  | inl (t, e) ↦ elim (Option-cases (Cmap.get str_dec s.sessions y.id)) [
    | inl a ↦ rw (e, update_session) (rw a c)
    | inr (x, a) ↦
        rw (e, update_session)
          (rw a (
            rewrite-IsConsistent s c y.id x y a (cc (own_id s c y.id x y a)) (same x a).0
              (same x a).1))
  ]
]

module _ (s : Store) (c : IsConsistent s) (x y : Session)
    (here : Cmap.get str_dec s.sessions y.id ≡ some x) where
  abbrev dropped : Cmap.Map Str Str
  dropped = drop_token s.tokens x.token_hash

  dropped-IsValid : Cmap.IsValid dropped
  dropped-IsValid = drop_token-IsValid s.tokens c.tokens_valid x.token_hash

  -- The token index after a change of the hash that succeeded.
  module _ (changed : x.token_hash ≢ y.token_hash)
      (done : (retoken s.tokens x.token_hash y.token_hash y.id).1 ≡ ok tt) where
    get-retoken :
        (hash : Str)
        → Cmap.get str_dec (retoken s.tokens x.token_hash y.token_hash y.id).0 hash
          ≡ ite
              (str_dec y.token_hash hash)
              (if is_empty y.token_hash then Cmap.get str_dec dropped hash else some y.id)
              (Cmap.get str_dec dropped hash)
    unfolding retoken
    get-retoken hash =
        ground (arith, CmapLaws.get-set str_dec dropped dropped-IsValid y.token_hash y.id hash)

    retoken-free : is_empty y.token_hash ≡ false → Cmap.get str_dec dropped y.token_hash ≡ none
    unfolding retoken Cmap.has
    retoken-free given = ground arith

    retoken-IsValid : Cmap.IsValid (retoken s.tokens x.token_hash y.token_hash y.id).0
    unfolding retoken
    retoken-IsValid = ground (
      arith,
      dropped-IsValid,
      CmapLaws.set-IsValid str_dec dropped dropped-IsValid y.token_hash y.id,
    )

    retoken-by_token :
        (hash j : Str)
        → points (Cmap.get str_dec (retoken s.tokens x.token_hash y.token_hash y.id).0 hash) j
          ≡ holds (Cmap.get str_dec (Cmap.set str_dec s.sessions y.id (incr_version y)) j) hash
    unfolding points holds incr_version
    retoken-by_token hash j = ground (
      arith,
      get-retoken hash,
      retoken-free,
      get-drop_token s.tokens c.tokens_valid x.token_hash hash,
      CmapLaws.get-set str_dec s.sessions c.sessions_valid y.id (incr_version y) j,
      c.by_token hash j,
      c.by_token hash y.id,
    )

    replaced-IsConsistent :
        y.user_id ≡ x.user_id
        → IsConsistent (record s {
          sessions = Cmap.set str_dec s.sessions y.id (incr_version y);
          tokens = (retoken s.tokens x.token_hash y.token_hash y.id).0;
        })
    replaced-IsConsistent same_user = record {
      sessions_valid = CmapLaws.set-IsValid str_dec s.sessions c.sessions_valid y.id _;
      tokens_valid = retoken-IsValid;
      users_valid = c.users_valid;
      ids = λ j.
          unfold named incr_version in
          ground (
            arith,
            CmapLaws.get-set str_dec s.sessions c.sessions_valid y.id (incr_version y) j,
            c.ids j,
          );
      by_token = retoken-by_token;
      by_user = λ user j.
          unfold owned incr_version in
          ground (
            arith,
            CmapLaws.get-set str_dec s.sessions c.sessions_valid y.id (incr_version y) j,
            c.by_user user j,
          );
    }

  retoken_same :
      x.token_hash ≡ y.token_hash
      → retoken s.tokens x.token_hash y.token_hash y.id ≡ (s.tokens, ok tt)
  unfolding retoken
  retoken_same e = if_pos (str_dec x.token_hash y.token_hash) e _ _

  retoken_err :
      (e : Code)
      → (retoken s.tokens x.token_hash y.token_hash y.id).1 ≡ err e
      → e ≡ token_hash_conflict
  unfolding retoken
  retoken_err e h = ground arith

  -- `Update` after its checks, for a session that keeps its user.
  replace-IsConsistent :
      y.user_id ≡ x.user_id
      → (replace s x y).1 ≢ err token_hash_conflict
      → IsConsistent (replace s x y).0
  unfolding replace clone
  replace-IsConsistent same_user fine = elim (str_dec x.token_hash y.token_hash) [
    | yes p ↦
        rw (retoken_same p, replace)
          (rw (retoken_same p) (
            unfold incr_version in
            rewrite-IsConsistent s c y.id x (incr_version y) here (cc (own_id s c y.id x x here))
              same_user (sym p)))
    | no p ↦ elim (Result-cases (retoken s.tokens x.token_hash y.token_hash y.id).1) [
      | inl (t, done) ↦ rw (done, replace) (replaced-IsConsistent p done same_user)
      | inr (e, failed) ↦ absurd (fine (ground (arith, retoken_err e)))
    ]
  ]

-- `Update` keeps a store consistent if the session keeps its user and its new token hash is not
-- refused.
pub update-IsConsistent :
    (s : Store) (y : Session) (expected : ℕ)
    → IsConsistent s
    → ((x : Session) → Cmap.get str_dec s.sessions y.id ≡ some x → y.user_id ≡ x.user_id)
    → (update s y expected).1 ≢ err token_hash_conflict
    → IsConsistent (update s y expected).0
unfolding update
update-IsConsistent s y expected c same fine =
    elim (Option-cases (Cmap.get str_dec s.sessions y.id)) [
      | inl e ↦ ground (arith, c)
      | inr (x, e) ↦ ground (arith, replace-IsConsistent s c x y e (same x e))
    ]
