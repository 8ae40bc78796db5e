-- ===== src/Cluster/Interceptor/Admission.antt =====
-- Whose calls reach a handler.
use tokmesh_go.Base.{
  ℕ, ◌≡◌, ◌≢◌, ◌↔◌, ◌≤◌, Bool, true, false, Option, none, some, List, [], ◌∷◌, arith, refl, ap, sym,
  Option-cases, Bool-cases, inl, inr, ◌∙◌, subst,
}
use tokmesh_go.Domain.Str.{Str, str_dec, is_empty}
use tokmesh_go.GoMap
use tokmesh_go.GoMap.{GoMap}
use tokmesh_go.Cluster.Interceptor.{
  Certificate, ConnectionState, Context, Times, Refusal, Outcome, unauthenticated, AuthInterceptor,
  Handler, tls_middleware, recovered, recovery, is_allowed, verify_certificate, check_node_id,
  check_peer, authenticate, auth, default_interceptors, update_allowed_nodes,
}

-- The certificate that the peer of a connection shows first.
abbrev pub first_certificate : Option ConnectionState → Option Certificate
first_certificate none = none
first_certificate (some tls) = elim tls.peer_certificates [ [] ↦ none | cert ∷ certs ↦ some cert ]

-- The context of a request as the HTTP server gives it to the middleware.
abbrev pub background : Context
background = record { tls_state = none }

abbrev pub within : Option ConnectionState → Context
within tls = record { tls_state = tls }

module _ {CertPool : Type 0} (verify : CertPool → Certificate → ℕ → Bool) where
  -- A certificate of a node, and not of an authority, that the pool vouches for at the time.
  abbrev pub IsTrusted : CertPool → Times → Certificate → Type 0
  IsTrusted pool t cert =
      (verify pool cert t.at_verify ≡ true)
      × (cert.not_before ≤ t.at_begin)
      × (t.at_end ≤ cert.not_after)
      × (cert.is_ca ≡ false)

  -- The name of a node that may call: where the check is strict and there is a list, it is in it.
  abbrev pub IsKnown : AuthInterceptor CertPool → Str → Type 0
  IsKnown i name =
      (is_empty name ≡ false)
      × ((m : GoMap Str Bool)
          → i.strict_node_id_check ≡ true
          → i.allowed_nodes ≡ some m
          → GoMap.get str_dec m name ≡ some true)

  -- The first certificate of the connection is trusted, and has the name of a node that may call.
  abbrev pub IsAdmitted :
      AuthInterceptor CertPool → CertPool → Times → Option ConnectionState → Type 0
  IsAdmitted i pool t tls =
      (cert : Certificate) × (first_certificate tls ≡ some cert)
      × IsTrusted pool t cert
      × IsKnown i cert.common_name

  verify_certificate-IsTrusted :
      (pool : CertPool) (t : Times) (cert : Certificate)
      → (verify_certificate verify pool t cert ≡ none) ↔ IsTrusted pool t cert
  unfolding verify_certificate
  verify_certificate-IsTrusted pool t cert = (
    λ h. (ground (arith, h), ground (arith, h), ground (arith, h), ground (arith, h)),
    λ (v, b, e, c). ground (arith, v, b, e, c),
  )

  listed :
      (nodes : Option (GoMap Str Bool)) (name : Str)
      → (is_allowed nodes name ≡ true)
        ↔ ((m : GoMap Str Bool) → nodes ≡ some m → GoMap.get str_dec m name ≡ some true)
  unfolding is_allowed
  listed none name = (λ h m e. absurd (ground (arith, e)), λ h. refl)
  listed (some l) name = (
    λ h m e. elim (Option-cases (GoMap.get str_dec l name)) [
      | inl g ↦ absurd (ground (arith, g, h))
      | inr (b, g) ↦
          let same : m ≡ l = cc in
          ap (λ n. GoMap.get str_dec n name) same ∙ g ∙ ground (arith, g, h)
    ],
    λ h. ground (arith, h l refl),
  )

  check_node_id-IsKnown :
      (i : AuthInterceptor CertPool) (name : Str)
      → (check_node_id verify i name ≡ none) ↔ IsKnown i name
  unfolding check_node_id
  check_node_id-IsKnown i name = (
    λ h. (
      ground (arith, h),
      λ m strict e. (listed i.allowed_nodes name).0 (ground (arith, h, strict)) m e,
    ),
    λ (named, known). elim (Bool-cases i.strict_node_id_check) [
      | inl strict ↦
          let yes_listed : is_allowed i.allowed_nodes name ≡ true =
            (listed i.allowed_nodes name).1 (λ m e. known m strict e) in
          ground (arith, named, strict, yes_listed)
      | inr lax ↦ ground (arith, named, lax)
    ],
  )

  check_peer-IsAdmitted :
      (i : AuthInterceptor CertPool) (pool : CertPool) (t : Times)
      → (certs : List Certificate)
      → (check_peer verify i pool t certs ≡ none)
        ↔ IsAdmitted i pool t (some (record { peer_certificates = certs }))
  unfolding check_peer
  check_peer-IsAdmitted i pool t [] =
      (λ h. absurd (ground (arith, h)), λ (cert, e, trusted, known). absurd (ground (arith, e)))
  check_peer-IsAdmitted i pool t (c ∷ l) = (
    λ h. (
      c,
      refl,
      (verify_certificate-IsTrusted pool t c).0 (ground (arith, h)),
      (check_node_id-IsKnown i c.common_name).0 (ground (arith, h)),
    ),
    λ (cert, e, trusted, known).
        let same : cert ≡ c = cc in
        let v : verify_certificate verify pool t c ≡ none =
          (verify_certificate-IsTrusted pool t c).1 (subst (IsTrusted pool t) same trusted) in
        let n : check_node_id verify i c.common_name ≡ none =
          (check_node_id-IsKnown i c.common_name).1
            (subst (λ x. IsKnown i x.common_name) same known) in
        ground (arith, v, n),
  )

  authenticate-IsAdmitted :
      (i : AuthInterceptor CertPool) (pool : CertPool) (t : Times) (ctx : Context)
      → i.client_ca_pool ≡ some pool
      → (authenticate verify i t ctx ≡ none) ↔ IsAdmitted i pool t ctx.tls_state
  unfolding authenticate
  authenticate-IsAdmitted i pool t ctx ca = elim (Option-cases ctx.tls_state) [
    | inl e ↦ (
      λ h. absurd (ground (arith, h, ca, e)),
      λ (c, f, known, trusted). absurd (ground (arith, e, f)),
    )
    | inr (tls, e) ↦ (
      λ h.
          subst (IsAdmitted i pool t) (sym e)
            ((check_peer-IsAdmitted i pool t tls.peer_certificates).0 (ground (arith, h, ca, e))),
      λ a.
          let p : check_peer verify i pool t tls.peer_certificates ≡ none =
            (check_peer-IsAdmitted i pool t tls.peer_certificates).1
              (subst (IsAdmitted i pool t) e a) in
          ground (arith, p, ca, e),
    )
  ]

  module _ {S A : Type 0} (i : AuthInterceptor CertPool) (t : Times) (next : Handler S A) where
    through_middleware :
        (tls : Option ConnectionState) (s : S)
        → ◌≡◌ {A = S × Outcome A}
            (tls_middleware (recovery (auth verify i t next)) tls background s)
            (recovery (auth verify i t next) (within tls) s)
    unfolding tls_middleware
    through_middleware none s = refl
    through_middleware (some tls) s = refl

    recovery_refused :
        (ctx : Context) (s : S) (r : Refusal)
        → authenticate verify i t ctx ≡ some r
        → ◌≡◌ {A = S × Outcome A} (recovery (auth verify i t next) ctx s) (s, unauthenticated r)
    unfolding recovery auth recovered
    recovery_refused ctx s r h = ground (arith, h)

    recovery_passed :
        (ctx : Context) (s : S)
        → authenticate verify i t ctx ≡ none
        → ◌≡◌ {A = S × Outcome A}
            (recovery (auth verify i t next) ctx s)
            ((next ctx s).0, recovered (next ctx s).1)
    unfolding recovery auth
    recovery_passed ctx s h = ground (arith, h)

    -- Behind `TLSMiddleware` and the interceptors that recover and authenticate, with a pool of
    -- authorities: a call passes if the peer shows first a certificate for which the pool vouches,
    -- in its period, of no authority and with a name, which is in the list where the check is
    -- strict and there is one; it is then what the handler makes of it, with a panic turned into
    -- an internal error. Any other call is refused as unauthenticated and leaves the state as it
    -- was. Whether a certificate is revoked is not asked, against the comment on
    -- `AuthInterceptor`.
    pub auth-IsAdmitted :
        (pool : CertPool) (tls : Option ConnectionState) (s : S)
        → i.client_ca_pool ≡ some pool
        → (IsAdmitted i pool t tls
            → ◌≡◌ {A = S × Outcome A}
                (tls_middleware (recovery (auth verify i t next)) tls background s)
                ((next (within tls) s).0, recovered (next (within tls) s).1))
          × (¬ IsAdmitted i pool t tls
              → (r : Refusal) × ◌≡◌ {A = S × Outcome A}
                  (tls_middleware (recovery (auth verify i t next)) tls background s)
                  (s, unauthenticated r))
    auth-IsAdmitted pool tls s ca =
        let iff = authenticate-IsAdmitted i pool t (within tls) ca in
        (
          λ a. through_middleware tls s ∙ recovery_passed (within tls) s (iff.1 a),
          λ out. elim (Option-cases (authenticate verify i t (within tls))) [
            | inl e ↦ absurd (out (iff.0 e))
            | inr (r, e) ↦ (r, through_middleware tls s ∙ recovery_refused (within tls) s r e)
          ],
        )

    -- After `UpdateAllowedNodes` with a list in which the name of the peer does not stand, a strict
    -- interceptor refuses the peer.
    pub unlisted_refused :
        (pool : CertPool) (tls : Option ConnectionState) (m : GoMap Str Bool)
        → i.client_ca_pool ≡ some pool
        → i.strict_node_id_check ≡ true
        → ((cert : Certificate)
            → first_certificate tls ≡ some cert
            → GoMap.get str_dec m cert.common_name ≡ none)
        → authenticate verify (update_allowed_nodes i (some m)) t (within tls) ≢ none
    unfolding update_allowed_nodes
    unlisted_refused pool tls m ca strict out e =
        let (cert, first, trusted, known) =
          (authenticate-IsAdmitted (update_allowed_nodes i (some m)) pool t (within tls) ca).0 e in
        let found = known.1 m strict refl in absurd (ground (arith, found, out cert first))

  -- The default interceptors refuse no call.
  pub default_interceptors_open :
      {S A : Type 0} (t : Times) (next : Handler S A) (ctx : Context) (s : S)
      → ◌≡◌ {A = S × Outcome A}
          (default_interceptors verify t next ctx s)
          ((next ctx s).0, recovered (next ctx s).1)
  unfolding default_interceptors recovery auth authenticate
  default_interceptors_open t next ctx s = refl
