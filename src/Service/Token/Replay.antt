-- ===== src/Service/Token/Replay.antt =====
-- A request that was accepted is not accepted again.
use tokmesh_go.Base.{
  ℕ, ◌+◌, ◌*◌, ◌-◌, ◌/◌, ◌≡◌, ◌<◌, ◌≤◌, true, false, some, length, arith, Bool-cases, ltb, inl, inr,
}
use tokmesh_go.Domain.Str.{Str, is_empty}
use tokmesh_go.Domain.Error.{Code, ok, err, nonce_replay, timestamp_skew}
use tokmesh_go.Service.Nonce.{NonceCache, add_if_absent, move_to_front}
use tokmesh_go.Service.Nonce.Replay.{IsSound, refused_at_once}
use tokmesh_go.Service.Token.{check_nonce, answer, deviation}

module _ (fuel now window : ℕ) (c r : NonceCache) (nonce : Str) (timestamp : ℕ)
    (taken : check_nonce fuel now window c nonce timestamp ≡ some (r, ok tt)) where
  -- what an accepted request passed
  in_window : deviation (now / 1000000) timestamp ≤ window / 1000000
  unfolding check_nonce
  in_window = ground (arith, taken)

  added : add_if_absent fuel now c nonce ≡ some (r, true)
  unfolding check_nonce answer
  added = ground (arith, taken)

-- Two times that are both within `w` milliseconds of a timestamp are close.
within :
    (now later w timestamp : ℕ)
    → deviation (now / 1000000) timestamp ≤ w
    → deviation (later / 1000000) timestamp ≤ w
    → later - now < (2 * w + 1) * 1000000
within now later w timestamp first second = ground (arith, first, second)

again-skew :
    (fuel later window : ℕ) (r : NonceCache) (nonce : Str) (timestamp : ℕ)
    → is_empty nonce ≡ false
    → ltb 256 (length nonce) ≡ false
    → ltb (window / 1000000) (deviation (later / 1000000) timestamp) ≡ true
    → check_nonce fuel later window r nonce timestamp ≡ some (r, err timestamp_skew)
unfolding check_nonce
again-skew fuel later window r nonce timestamp given short far = ground (arith, given, short, far)

again-replay :
    (fuel later window : ℕ) (r d : NonceCache) (nonce : Str) (timestamp : ℕ)
    → is_empty nonce ≡ false
    → ltb 256 (length nonce) ≡ false
    → ltb (window / 1000000) (deviation (later / 1000000) timestamp) ≡ false
    → add_if_absent fuel later r nonce ≡ some (d, false)
    → check_nonce fuel later window r nonce timestamp ≡ some (d, err nonce_replay)
unfolding check_nonce answer
again-replay fuel later window r d nonce timestamp given short near seen =
    ground (arith, given, short, near, seen)

module _ (fuel now later window : ℕ) (c r : NonceCache) (nonce : Str) (timestamp : ℕ)
    (sound : IsSound c) (enough : length c.order < fuel)
    (taken : check_nonce fuel now window c nonce timestamp ≡ some (r, ok tt)) where
  given : is_empty nonce ≡ false
  unfolding check_nonce
  given = ground (arith, taken)

  short : ltb 256 (length nonce) ≡ false
  unfolding check_nonce
  short = ground (arith, taken)

  -- A request that `CheckNonce` let pass, on a coherent cache with a positive capacity and at most
  -- that many elements and given more fuel than elements, is refused when it comes again with its
  -- nonce and timestamp, at any later time and with nothing in between, if the time to live of the
  -- cache is at least a millisecond longer than twice the time window.
  pub check_nonce_protects :
      now ≤ later
      → (2 * (window / 1000000) + 1) * 1000000 ≤ c.ttl
      → (d : NonceCache) × (e : Code) × (check_nonce fuel later window r nonce timestamp
          ≡ some (d, err e))
  check_nonce_protects later_on long =
      elim (Bool-cases (ltb (window / 1000000) (deviation (later / 1000000) timestamp))) [
        | inl far ↦
            (r, timestamp_skew, again-skew fuel later window r nonce timestamp given short far)
        | inr near ↦
            let soon =
              within now later (window / 1000000) timestamp
                (in_window fuel now window c r nonce timestamp taken) (ground (arith, near)) in
            (
              move_to_front r nonce now,
              nonce_replay,
              again-replay fuel later window r (move_to_front r nonce now) nonce timestamp given
                  short near
                  (refused_at_once fuel now later c nonce r sound enough
                    (added fuel now window c r nonce timestamp taken) (omega (arith, soon, long))),
            )
      ]
