-- ===== src/Service/Token/Validation.antt =====
-- What `Validate` finds on a consistent store.
use tokmesh_go.Base.{
  ℕ, ◌≡◌, refl, ap, ◌∙◌, true, false, some, List, Option-cases, Bool-cases, inl, inr, arith,
}
use tokmesh_go.Domain.Str.{Str, str_dec}
use tokmesh_go.Domain.Error.{Result-cases, ok}
use tokmesh_go.Domain.Session.{Session, is_expired, clone, incr_version}
use tokmesh_go.Domain.Session
use tokmesh_go.Domain.Token.{validate_token_format, hash_token}
use tokmesh_go.Cmap
use tokmesh_go.Memory.Store.{Store}
use tokmesh_go.Memory.Store
use tokmesh_go.Memory.Store.Invariant.{IsConsistent, points, holds, named}
use tokmesh_go.Memory.Consistent.Reads.{get_by_token_found}
use tokmesh_go.Memory.Change
use tokmesh_go.Service.Token.{ValidateRequest, touched, validate_token}

-- A session that is stored, not expired, and has the token hash.
abbrev pub Holds : ℕ → Store → Str → Session → Type 0
Holds now s hash x =
    (Cmap.get str_dec s.sessions x.id ≡ some x) × (x.token_hash ≡ hash) × (is_expired now x ≡ false)

get_by_token-at :
    (now : ℕ) (s : Store) (hash id : Str) (x y : Session)
    → IsConsistent s
    → Cmap.get str_dec s.tokens hash ≡ some id
    → Cmap.get str_dec s.sessions id ≡ some y
    → (Store.get_by_token now s hash).1 ≡ ok x
    → Holds now s hash x
unfolding Store.get_by_token Store.live clone points holds named
get_by_token-at now s hash id x y c e f found =
    let same : y ≡ x = ground (arith, e, f, found) in
    let own : x.id ≡ id = ground (arith, c.ids id, f, same) in
    (
      ap (Cmap.get str_dec s.sessions) own ∙ f ∙ ap some same,
      ground (arith, c.by_token hash id, e, f, same),
      ground (arith, e, f, found),
    )

get_by_token-Holds :
    (now : ℕ) (s : Store) (hash : Str) (x : Session)
    → IsConsistent s
    → (Store.get_by_token now s hash).1 ≡ ok x
    → Holds now s hash x
unfolding Store.get_by_token Store.live clone points holds named
get_by_token-Holds now s hash x c found = elim (Option-cases (Cmap.get str_dec s.tokens hash)) [
  | inl e ↦ absurd (ground (arith, e, found))
  | inr (id, e) ↦ elim (Option-cases (Cmap.get str_dec s.sessions id)) [
    | inl f ↦ absurd (ground (arith, e, f, found))
    | inr (y, f) ↦ get_by_token-at now s hash id x y c e f found
  ]
]

-- the answer is the session, touched or not
abbrev pub IsSame : Session → Session → Type 0
IsSame x y =
    (y.id ≡ x.id)
    × (y.user_id ≡ x.user_id)
    × (y.token_hash ≡ x.token_hash)
    × (y.expires_at ≡ x.expires_at)

touched-IsSame :
    (now : ℕ) (s : Store) (req : ValidateRequest) (x y : Session)
    → (touched now s req x).1 ≡ ok y
    → IsSame x y
unfolding touched Session.touch incr_version clone
touched-IsSame now s req x y h = elim (Bool-cases req.touch) [
  | inl t ↦
      elim (Result-cases
        (Change.update_session s
          (incr_version (Session.touch now req.client_ip req.user_agent x))).1) [
            | inl (u, e) ↦ ground (arith, t, e, h)
            | inr (u, e) ↦ ground (arith, t, e, h)
          ]
  | inr f ↦ ground (arith, f, h)
]

module _ (sha256 : Str → List ℕ) (now : ℕ) (s : Store) (req : ValidateRequest)
    (c : IsConsistent s) where
  -- A token that `Validate` accepts on a consistent store is well formed, and some stored session
  -- that has neither expired nor been marked as deleted has its hash; the session that is returned
  -- has the ID, user, token and expiry of that one.
  pub validate_token_sound :
      (y : Session)
      → (validate_token sha256 now s req).1 ≡ ok y
      → (validate_token_format req.token ≡ true)
        × ((x : Session) × Holds now s (hash_token sha256 req.token) x
            × (x.is_deleted ≡ false)
            × IsSame x y)
  unfolding validate_token
  validate_token_sound y h =
      elim (Result-cases (Store.get_by_token now s (hash_token sha256 req.token)).1) [
        | inr (e, f) ↦ absurd (ground (arith, f, h))
        | inl (x, f) ↦ (
          ground (arith, h),
          (
            x,
            get_by_token-Holds now s (hash_token sha256 req.token) x c f,
            ground (arith, f, h),
            touched-IsSame now (Store.get_by_token now s (hash_token sha256 req.token)).0 req x y
                (ground (arith, f, h)),
          ),
        )
      ]

  touched_total : (t : Store) (x : Session) → (y : Session) × ((touched now t req x).1 ≡ ok y)
  unfolding touched incr_version Session.touch clone
  touched_total t x = elim (Bool-cases req.touch) [
    | inr f ↦ (x, ground (arith, f))
    | inl f ↦
        elim (Result-cases
          (Change.update_session t
            (incr_version (Session.touch now req.client_ip req.user_agent x))).1) [
              | inl (u, e) ↦ (
                incr_version (Session.touch now req.client_ip req.user_agent x),
                ground (arith, f, e),
              )
              | inr (u, e) ↦ (x, ground (arith, f, e))
            ]
  ]

  -- On a consistent store, `Validate` accepts a well-formed token if a stored session that has
  -- neither expired nor been marked as deleted has its hash, whether or not the touch succeeds,
  -- and returns a session with the ID, user, token and expiry of that one.
  pub validate_token_complete :
      (x : Session)
      → validate_token_format req.token ≡ true
      → Holds now s (hash_token sha256 req.token) x
      → x.is_deleted ≡ false
      → (y : Session) × ((validate_token sha256 now s req).1 ≡ ok y) × IsSame x y
  unfolding validate_token hash_token Store.live clone
  validate_token_complete x good held kept =
      let found =
        get_by_token_found now s c (hash_token sha256 req.token) x.id x held.0 held.1 refl in
      let (y, e) = touched_total s x in
      (y, ground (arith, good, found, held.2, kept, e), touched-IsSame now s req x y e)
