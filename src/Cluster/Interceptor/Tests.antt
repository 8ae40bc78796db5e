-- ===== src/Cluster/Interceptor/Tests.antt =====
-- A node with a certificate, a node that left, and a panic behind the interceptors.
use tokmesh_go.Base.{
  ℕ_discrete, ℕ, ◌≡◌, Bool, true, false, Option, none, some, [], ◌∷◌, arith, refl, ap, ◌∙◌, leb,
  ◌+◌, ◌==◌, if◌then◌else◌,
}
use tokmesh_go.Domain.Str.{Str, str_dec, bytes}
use tokmesh_go.GoMap
use tokmesh_go.GoMap.{GoMap}
use tokmesh_go.Cluster.Interceptor.{
  Certificate, ConnectionState, Times, Outcome, returned, internal, panicked, Handler,
  AuthInterceptor, default_interceptors, recovered, tls_middleware, recovery, auth, authenticate,
  check_peer, verify_certificate, check_node_id, is_allowed, unauthenticated, not_allowed,
}
use tokmesh_go.Cluster.Interceptor.Admission.{IsAdmitted, background, auth-IsAdmitted}

-- a pool is the time from which it vouches for any certificate
abbrev vouches : ℕ → Certificate → ℕ → Bool
vouches pool cert now = leb pool now

abbrev allowed : GoMap Str Bool
allowed = (bytes "n1", true) ∷ (bytes "n2", false) ∷ []

abbrev interceptor : AuthInterceptor ℕ
interceptor = record {
  client_ca_pool = some 5;
  allowed_nodes = some allowed;
  strict_node_id_check = true;
}

abbrev times : Times
times = record { at_verify = 10; at_begin = 11; at_end = 12 }

abbrev certificate : Str → Certificate
certificate name = record { common_name = name; not_before = 11; not_after = 12; is_ca = false }

abbrev peer : Str → Option ConnectionState
peer name = some (record { peer_certificates = certificate name ∷ [] })

-- a handler that counts its calls, and panics at the third
abbrev counting : Handler ℕ ℕ
counting ctx n = (1 + n, if n == 2 then panicked else returned n)

-- a peer that the list does not name is refused, and the state stays
n2-refused :
    ◌≡◌ {A = ℕ × Outcome ℕ}
      (tls_middleware
        (recovery (auth vouches interceptor times counting))
        (peer (bytes "n2"))
        background
        0)
      (0, unauthenticated not_allowed)
unfolding tls_middleware recovery recovered auth authenticate check_peer verify_certificate
    check_node_id is_allowed GoMap.get str_dec ℕ_discrete
n2-refused = refl

-- any peer gets through the default interceptors
stranger_answered :
    ◌≡◌ {A = ℕ × Outcome ℕ}
      (tls_middleware (default_interceptors vouches times counting) none background 0)
      (1, returned 0)
unfolding tls_middleware recovery recovered auth authenticate default_interceptors
stranger_answered = refl

n1-IsAdmitted : IsAdmitted vouches interceptor 5 times (peer (bytes "n1"))
unfolding GoMap.get str_dec ℕ_discrete
n1-IsAdmitted = (
  certificate (bytes "n1"),
  refl,
  (refl, ground arith, ground arith, refl),
  (
    refl,
    λ m strict e.
        let same : m ≡ allowed = cc in ap (λ l. GoMap.get str_dec l (bytes "n1")) same ∙ refl,
  ),
)

auth-IsAdmitted_example :
    ◌≡◌ {A = ℕ × Outcome ℕ}
      (tls_middleware
        (recovery (auth vouches interceptor times counting))
        (peer (bytes "n1"))
        background
        2)
      (3, internal)
unfolding recovered
auth-IsAdmitted_example =
    (auth-IsAdmitted vouches interceptor times counting 5 (peer (bytes "n1")) 2 refl).0
      n1-IsAdmitted
