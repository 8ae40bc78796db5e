-- ===== src/Cluster/Interceptor.antt =====
-- The interceptors of the cluster's RPC server (src/internal/server/clusterserver/interceptor.go): who may
-- call a handler. A context carries the state of the connection that TLSMiddleware put there. What the
-- package crypto/x509 says of the chain of a certificate is an argument, and times are numbers.
pub mod Admission
mod Tests
use tokmesh_go.Base.{
  ℕ, Bool, true, false, not, ◌&&◌, Option, none, some, List, [], ◌∷◌, ltb, if◌then◌else◌,
}
use tokmesh_go.Domain.Str.{Str, str_dec, is_empty}
use tokmesh_go.GoMap
use tokmesh_go.GoMap.{GoMap}

-- `x509.Certificate`, as far as it is read here
pub record Certificate : Type 0 where
  pub common_name : Str
  pub not_before : ℕ
  pub not_after : ℕ
  pub is_ca : Bool

-- `tls.ConnectionState`, as far as it is read here
pub record ConnectionState : Type 0 where
  pub peer_certificates : List Certificate

-- The context of a call, as far as it is read here.
pub record Context : Type 0 where
  pub tls_state : Option ConnectionState

-- What the clock says at the checks of one certificate.
pub record Times : Type 0 where
  pub at_verify : ℕ
  pub at_begin : ℕ
  pub at_end : ℕ

-- Why a call is refused.
pub data Refusal : Type 0 where
  no_tls no_certificate bad_chain not_yet_valid has_expired ca_certificate : Refusal
  empty_name not_allowed : Refusal

-- What comes of a call: what the handler returns, its error included, or one of the interceptors'
-- errors, or a panic.
pub data Outcome (A : Type 0) : Type 0 where
  returned : A → Outcome A
  unauthenticated : Refusal → Outcome A
  internal : Outcome A
  panicked : Outcome A

pub record AuthInterceptor (CertPool : Type 0) : Type 0 where
  pub client_ca_pool : Option CertPool
  pub allowed_nodes : Option (GoMap Str Bool)
  pub strict_node_id_check : Bool

-- A handler works on the state of the server.
abbrev pub Handler : Type 0 → Type 0 → Type 0
Handler S A = Context → S → S × Outcome A

-- `TLSMiddleware`, given the state of the connection that the HTTP server has
unfoldable pub tls_middleware : {S A : Type 0} → Handler S A → Option ConnectionState → Handler S A
tls_middleware next none ctx s = next ctx s
tls_middleware next (some tls) ctx s = next (record ctx { tls_state = some tls }) s

-- `RecoveryInterceptor.WrapUnary`
unfoldable pub recovered : {A : Type 0} → Outcome A → Outcome A
recovered panicked = internal
recovered (returned a) = returned a
recovered (unauthenticated r) = unauthenticated r
recovered internal = internal

unfoldable pub recovery : {S A : Type 0} → Handler S A → Handler S A
recovery next ctx s = let r = next ctx s in (r.0, recovered r.1)

-- `!allowedNodes[nodeID]` of a map that is not nil
unfoldable pub is_allowed : Option (GoMap Str Bool) → Str → Bool
is_allowed none node_id = true
is_allowed (some m) node_id = elim (GoMap.get str_dec m node_id) [ none ↦ false | some b ↦ b ]

-- `UpdateAllowedNodes`
unfoldable pub update_allowed_nodes :
    {P : Type 0} → AuthInterceptor P → Option (GoMap Str Bool) → AuthInterceptor P
update_allowed_nodes i nodes = record i { allowed_nodes = nodes }

-- `NewAuthInterceptor` as `DefaultInterceptors` calls it: no pool, no list
abbrev pub default_auth : {P : Type 0} → AuthInterceptor P
default_auth = record { client_ca_pool = none; allowed_nodes = none; strict_node_id_check = false }

module _ {CertPool : Type 0} (verify : CertPool → Certificate → ℕ → Bool) where
  -- `verifyCertificate`: the error, if there is one
  unfoldable pub verify_certificate : CertPool → Times → Certificate → Option Refusal
  verify_certificate pool t cert =
      if not (verify pool cert t.at_verify)
      then some bad_chain
      else if ltb t.at_begin cert.not_before
      then some not_yet_valid
      else if ltb cert.not_after t.at_end
      then some has_expired
      else if cert.is_ca
      then some ca_certificate
      else none

  -- the end of `authenticate`, on the name of the certificate
  unfoldable pub check_node_id : AuthInterceptor CertPool → Str → Option Refusal
  check_node_id i node_id =
      if is_empty node_id
      then some empty_name
      else if i.strict_node_id_check && not (is_allowed i.allowed_nodes node_id)
      then some not_allowed
      else none

  -- `authenticate` from the certificates on
  unfoldable pub check_peer :
      AuthInterceptor CertPool → CertPool → Times → List Certificate → Option Refusal
  check_peer i pool t [] = some no_certificate
  check_peer i pool t (cert ∷ certs) = elim (verify_certificate pool t cert) [
    | some r ↦ some r
    | none ↦ check_node_id i cert.common_name
  ]

  -- `authenticate`: the error, if there is one
  unfoldable pub authenticate : AuthInterceptor CertPool → Times → Context → Option Refusal
  authenticate i t ctx = elim i.client_ca_pool [
    | none ↦ none
    | some pool ↦ elim ctx.tls_state [
      | none ↦ some no_tls
      | some tls ↦ check_peer i pool t tls.peer_certificates
    ]
  ]

  -- `AuthInterceptor.WrapUnary`
  unfoldable pub auth :
      {S A : Type 0} → AuthInterceptor CertPool → Times → Handler S A → Handler S A
  auth i t next ctx s = elim (authenticate i t ctx) [
    | some r ↦ (s, unauthenticated r)
    | none ↦ next ctx s
  ]

  -- `DefaultInterceptors` around a handler, the outermost first; the one that logs is left out
  unfoldable pub default_interceptors : {S A : Type 0} → Times → Handler S A → Handler S A
  default_interceptors t next = recovery (auth default_auth t next)
