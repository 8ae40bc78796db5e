-- ===== src/Storage/Samples.antt =====
-- A small library of codecs for the tests, which knows the payloads of one log by heart.
use tokmesh_go.Base.{
  ℕ, ◌%◌, ◌^◌, ◌≡◌, ◌<◌, refl, ap, sym, subst, ◌∙◌, false, Option, none, some, [], ◌∷◌, length,
  get_or, ◌==◌, arith, if◌then◌else◌,
}
use tokmesh_go.Domain.Str.{is_empty}
use tokmesh_go.Domain.Session.{Session}
use tokmesh_go.Memory.Samples.{alice, bob}
use tokmesh_go.Storage.Entry.{Entry, new_create_entry, new_update_entry, new_delete_entry}
use tokmesh_go.Storage.Codec.{
  Bytes, WirePayload, Library, Cipher, done, serialized, serialized_option, wire_payload,
}
use tokmesh_go.Storage.Codec.RoundTrip.{IsLoggable}

-- bob, as the service updates him
abbrev pub bob_updated : Session
bob_updated = record bob { version = 2; last_active = 1500 }

-- the payload of an entry in plain text, as JSON gives it back
abbrev plain_payload : Entry → WirePayload
plain_payload e = record {
  timestamp = e.timestamp;
  session_id = e.session_id;
  version = e.version;
  session = serialized_option e.session;
  encrypted_session = [];
}

-- the payload of the creation of bob under the cipher
abbrev secret_payload : WirePayload
secret_payload = record {
  timestamp = 2000;
  session_id = bob.id;
  version = 1;
  session = none;
  encrypted_session = 7 ∷ 50 ∷ 1 ∷ [];
}

abbrev find_payload : ℕ → Option WirePayload
find_payload n =
    if n == 1000 % 256
    then some (plain_payload (new_create_entry 1000 alice))
    else if n == 1001 % 256
    then some (plain_payload (new_create_entry 1001 bob))
    else if n == 1500 % 256
    then some (plain_payload (new_update_entry 1500 bob_updated))
    else if n == 1700 % 256
    then some (plain_payload (new_delete_entry 1700 alice.id))
    else if n == 2000 % 256
    then some secret_payload
    else none

abbrev unmarshal : Bytes → Option WirePayload
unmarshal (n ∷ []) = find_payload n
unmarshal _ = none

abbrev marshal : WirePayload → Bytes
marshal p = p.timestamp % 256 ∷ []

abbrev unmarshal_session : Bytes → Option Session
unmarshal_session (n ∷ v ∷ []) =
    if n == 49
    then some (serialized alice)
    else if v == 1
    then some (serialized bob)
    else some (serialized bob_updated)
unmarshal_session _ = none

abbrev marshal_session : Session → Bytes
marshal_session x = get_or x.id 5 0 ∷ x.version ∷ []

pub is_empty-length : (b : Bytes) → 0 < length b → is_empty b ≡ false
is_empty-length b h = ground (arith, h)

abbrev pub toy : Library
toy = record {
  marshal = marshal;
  unmarshal = unmarshal;
  marshal_session = marshal_session;
  unmarshal_session = unmarshal_session;
  checksum = λ b. length b % 2 ^ 32;
  encode_base64 = λ b. b;
  decode_base64 = λ b. some b;
  IsText = λ p. unmarshal (marshal p) ≡ some (record p { session = serialized_option p.session });
  IsSessionText = λ x. unmarshal_session (marshal_session x) ≡ some (serialized x);
  unmarshal-marshal = λ p h. h;
  unmarshal_session-marshal_session = λ x h. h;
  checksum-lt = λ b. omega arith;
  decode-encode = λ b. refl;
  encode-ne-empty = is_empty-length;
}

abbrev pub decrypt : Bytes → Option Bytes
decrypt [] = none
decrypt (x ∷ y) = some y

pub decrypt-encrypt : (x y : Bytes) → some (7 ∷ x) ≡ some y → decrypt y ≡ some x
decrypt-encrypt x y h = ap decrypt_option (sym h)
  where
    decrypt_option : Option Bytes → Option Bytes
    decrypt_option none = none
    decrypt_option (some b) = decrypt b

pub encrypt_pos : (x y : Bytes) → some (7 ∷ x) ≡ some y → 0 < length y
encrypt_pos x y h = ground (arith, h)

abbrev pub toy_cipher : Cipher
toy_cipher = record {
  encrypt = λ x. some (7 ∷ x);
  decrypt = decrypt;
  decrypt-encrypt = decrypt-encrypt;
  encrypt_pos = encrypt_pos;
}

done_inj : (p q : WirePayload) → done p ≡ done q → p ≡ q
done_inj p q h = ground (arith, h)

some_inj : (x y : Session) → some x ≡ some y → x ≡ y
some_inj x y h = ground (arith, h)

-- an entry with a session
pub entry-IsLoggable :
    (cipher : Option Cipher) (e : Entry) (p : WirePayload) (x : Session)
    → wire_payload toy cipher e ≡ done p
    → toy.IsText p
    → e.session ≡ some x
    → toy.IsSessionText x
    → IsLoggable toy cipher e
entry-IsLoggable cipher e p x is text there session_text = record {
  payload = λ q h. subst (λ r. toy.IsText r) (done_inj p q (sym is ∙ h)) text;
  small = λ q h. omega arith;
  plain = λ y h. subst (λ r. toy.IsSessionText r) (some_inj x y (sym there ∙ h)) session_text;
}

pub deletion-IsLoggable :
    (e : Entry) (p : WirePayload)
    → wire_payload toy none e ≡ done p
    → toy.IsText p
    → e.session ≡ none
    → IsLoggable toy none e
deletion-IsLoggable e p is text bare = record {
  payload = λ q h. subst (λ r. toy.IsText r) (done_inj p q (sym is ∙ h)) text;
  small = λ q h. omega arith;
  plain = λ y h. absurd (ground (arith, bare, h));
}
