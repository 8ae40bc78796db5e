-- ===== src/Service/Token/Tests.antt =====
-- Runs of the token service, and instances of its theorems.
use tokmesh_go.Base.{ℕ, ◌≡◌, refl, true, false, some, List, [], ◌∷◌, length, arith}
use tokmesh_go.Domain.Str.{Str, bytes}
use tokmesh_go.Domain.Error.{Code, ok, err}
use tokmesh_go.Domain.Session.{Session}
use tokmesh_go.Domain.Session
use tokmesh_go.Domain.Token as Format
use tokmesh_go.Domain.Token.{hash_token, validate_token_format}
use tokmesh_go.Memory.Store.{Store}
use tokmesh_go.Memory.Store
use tokmesh_go.Memory.Store.Invariant.{IsConsistent}
use tokmesh_go.Memory.Consistent.Create
use tokmesh_go.Memory.Samples
use tokmesh_go.Memory.Samples.{alice, s2, s2-IsConsistent}
use tokmesh_go.Service.Nonce
use tokmesh_go.Service.Nonce.{NonceCache, new_nonce_cache}
use tokmesh_go.Service.Nonce.Coherent.{new-IsCoherent}
use tokmesh_go.Service.Nonce.Replay.{IsSound}
use tokmesh_go.Service.Token
use tokmesh_go.Service.Token.{ValidateRequest, validate_token, check_nonce}
use tokmesh_go.Service.Token.Replay.{check_nonce_protects}
use tokmesh_go.Service.Token.Validation.{
  Holds, IsSame, validate_token_sound, validate_token_complete,
}

unfoldable program : Unit {0}
unfolding Samples.program Nonce.new_nonce_cache Nonce.remove Nonce.move_to_front Nonce.back
    Nonce.stale_nonces Nonce.remove_all Nonce.cleanup_expired Nonce.evict_one Nonce.evict Nonce.push
    Nonce.add_locked Nonce.add_if_absent Token.check_nonce Token.answer Token.validate_token
    Token.touched Session.touch Format.has_prefix Format.from Format.hex_encode Format.nibble
    Format.hash_token Format.is_url_char Format.url_decodes Format.validate_token_format
program = tt

-- A window of 30 seconds, and a time to live that is a millisecond longer than two windows.
abbrev blank : NonceCache
blank = new_nonce_cache 2 60001000000

abbrev used : NonceCache
used = record {
  items = (bytes "n", 100000000000) ∷ [];
  order = (bytes "n", 100000000000) ∷ [];
  capacity = 2;
  ttl = 60001000000;
}

blank-IsSound : IsSound blank
unfolding new_nonce_cache
blank-IsSound = record {
  coherent = unfold new_nonce_cache in new-IsCoherent 2 60001000000;
  positive = omega arith;
  bounded = omega arith;
}

accepted : check_nonce 5 100000000000 30000000000 blank (bytes "n") 130000 ≡ some (used, ok tt)
unfolding program
accepted = refl

check_nonce_protects_example :
    (d : NonceCache) × (e : Code) × (check_nonce 5 160000000000 30000000000 used (bytes "n") 130000
      ≡ some (d, err e))
unfolding new_nonce_cache
check_nonce_protects_example =
    check_nonce_protects 5 100000000000 160000000000 30000000000 blank used (bytes "n") 130000
      blank-IsSound (omega arith) accepted (omega arith) (omega arith)

-- With the default window and time to live, a request whose timestamp is 30 seconds ahead is accepted
-- again after exactly 60 seconds.
accepts_again :
    check_nonce 5 160000000000 30000000000 (record used { ttl = 60000000000 }) (bytes "n") 130000
    ≡ some (
      record {
        items = (bytes "n", 160000000000) ∷ [];
        order = (bytes "n", 160000000000) ∷ [];
        capacity = 2;
        ttl = 60000000000;
      },
      ok tt,
    )
unfolding program
accepts_again = refl

-- a digest for the tests
abbrev digest : Str → List ℕ
digest s = length s ∷ 255 ∷ []

abbrev token : Str
token = bytes "tmtk_AAAAAAAAAABBBBBBBBBBCCCCCCCCCC-_00000000001"

abbrev carol : Session
carol = record alice {
  id = bytes "tmss-3";
  user_id = bytes "carol";
  token_hash = bytes "tmth_30ff";
}

abbrev s3 : Store
s3 = (Store.create s2 carol).0

s3-IsConsistent : IsConsistent s3
s3-IsConsistent = Create.create-IsConsistent s2 carol s2-IsConsistent

abbrev request : ValidateRequest
request = record { token = token; touch = true; client_ip = bytes "10.0.0.9"; user_agent = [] }

abbrev touched_carol : Session
touched_carol = record carol { last_active = 2000; last_access_ip = bytes "10.0.0.9"; version = 2 }

validates : (validate_token digest 2000 s3 request).1 ≡ ok touched_carol
unfolding program
validates = refl

validate_token_sound_example :
    (validate_token_format token ≡ true)
    × ((x : Session) × Holds 2000 s3 (hash_token digest token) x
        × (x.is_deleted ≡ false)
        × IsSame x touched_carol)
validate_token_sound_example =
    validate_token_sound digest 2000 s3 request s3-IsConsistent touched_carol validates

well_formed : validate_token_format token ≡ true
unfolding program
well_formed = refl

carol-Holds : Holds 2000 s3 (hash_token digest token) carol
unfolding program
carol-Holds = (refl, refl, refl)

validate_token_complete_example :
    (y : Session) × ((validate_token digest 2000 s3 request).1 ≡ ok y) × IsSame carol y
validate_token_complete_example =
    validate_token_complete digest 2000 s3 request s3-IsConsistent carol well_formed carol-Holds
      refl
