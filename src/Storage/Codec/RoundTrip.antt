-- ===== src/Storage/Codec/RoundTrip.antt =====
-- What was encoded is decoded, up to the fields that JSON leaves out.
use tokmesh_go.Base.{
  ℕ, ◌+◌, ◌/◌, ◌%◌, ◌^◌, ◌≡◌, ◌<◌, ◌≤◌, refl, ap, sym, ◌∙◌, Option, none, some, [], ◌∷◌, ◌++◌, ◌⊎◌,
  length, arith, Option-cases, inl, inr, length-append, take-append_length, drop-append_length,
}
use tokmesh_go.Domain.Session.{Session}
use tokmesh_go.Storage.Entry.{Entry, OpType}
use tokmesh_go.Storage.Codec.{
  Bytes, WirePayload, Library, Cipher, FrameResult, FrameError, failed, done, put_uint32, uint32,
  op_byte, op_of_byte, serialized, serialized_option, session_payload, wire_payload, frame_of,
  encode_entry_frame, decrypt_session, payload_session, entry_of, decode_parts, decode_entry_frame,
  read_frame, read_length, read_one_entry, reads,
}

-- An entry as the log carries it: the session of a deletion is left out, and the others lose the
-- fields that JSON leaves out.
unfoldable pub wire : Entry → Entry
wire e = record e {
  session = elim e.op_type [ OpType.delete ↦ none | _ ↦ serialized_option e.session ];
}

pub put_uint32_lem :
    (n : ℕ)
    → n < 2 ^ 32
    → uint32 (n / 2 ^ 24 % 256) (n / 2 ^ 16 % 256) (n / 2 ^ 8 % 256) (n % 256) ≡ n
put_uint32_lem n h = omega arith

op_of_byte-op_byte : (op : OpType) → op_of_byte (op_byte op) ≡ op
op_of_byte-op_byte OpType.unspecified = refl
op_of_byte-op_byte OpType.create = refl
op_of_byte-op_byte OpType.update = refl
op_of_byte-op_byte OpType.delete = refl

result_cases {ℓ} :
    {A : Type ℓ} (r : FrameResult A)
    → ((x : FrameError) × (r ≡ failed x)) ⊎ ((a : A) × (r ≡ done a))
result_cases (failed x) = inl (x, refl)
result_cases (done a) = inr (a, refl)

module _ (lib : Library) (cipher : Option Cipher) where
  -- The texts of an entry are such that JSON keeps them, and its payload fits the length field.
  pub record IsLoggable (e : Entry) : Type 0 where
    pub payload : (p : WirePayload) → wire_payload lib cipher e ≡ done p → lib.IsText p
    pub small :
        (p : WirePayload) → wire_payload lib cipher e ≡ done p → 5 + length (lib.marshal p) < 2 ^ 32
    pub plain : (x : Session) → e.session ≡ some x → lib.IsSessionText x

  abbrev as_read : WirePayload → WirePayload
  as_read p = record p { session = serialized_option p.session }

  -- the session of the payload of an entry that carries one
  payload_session-session_payload :
      (p q : WirePayload) (x : Session)
      → p.session ≡ none
      → lib.IsSessionText x
      → session_payload lib cipher p x ≡ done q
      → payload_session lib cipher (as_read q) ≡ done (serialized x)
  unfolding session_payload payload_session decrypt_session
  payload_session-session_payload p q x bare text h = elim (Option-cases cipher) [
    | inl e ↦ ground (arith, e, h)
    | inr (c, e) ↦ elim (Option-cases (c.encrypt (lib.marshal_session x))) [
      | inl f ↦ ground (arith, e, f, h)
      | inr (y, f) ↦ ground (
        arith,
        e,
        f,
        h,
        lib.decode-encode y,
        c.decrypt-encrypt (lib.marshal_session x) y f,
        lib.encode-ne-empty y (c.encrypt_pos (lib.marshal_session x) y f),
        lib.unmarshal_session-marshal_session x text,
      )
    ]
  ]

  session_payload_fields :
      (p q : WirePayload) (x : Session)
      → session_payload lib cipher p x ≡ done q
      → (q.timestamp ≡ p.timestamp) × (q.session_id ≡ p.session_id) × (q.version ≡ p.version)
  unfolding session_payload
  session_payload_fields p q x h = ground (arith, h)

  entry_of-wire_payload :
      (e : Entry) (p : WirePayload)
      → IsLoggable e
      → wire_payload lib cipher e ≡ done p
      → entry_of lib cipher e.op_type (as_read p) ≡ done (wire e)
  unfolding wire_payload entry_of wire
  entry_of-wire_payload e p text h = elim (Option-cases e.session) [
    | inl none_there ↦ ground (arith, h, none_there)
    | inr (x, there) ↦
        let bare : WirePayload = record {
          timestamp = e.timestamp;
          session_id = e.session_id;
          version = e.version;
          session = none;
          encrypted_session = [];
        } in
        ground (
          arith,
          h,
          there,
          session_payload_fields bare p x,
          payload_session-session_payload bare p x refl (text.plain x there),
        )
  ]

  unfoldable pub body : OpType → Bytes → Bytes
  body op payload = put_uint32 (lib.checksum (op_byte op ∷ payload)) ++ op_byte op ∷ payload

  pub length-body : (op : OpType) (payload : Bytes) → length (body op payload) ≡ 5 + length payload
  unfolding body
  length-body op payload = ground arith

  frame_of_lem :
      (op : OpType) (payload : Bytes)
      → 5 + length payload < 2 ^ 32
      → frame_of lib cipher op payload ≡ done (put_uint32 (5 + length payload) ++ body op payload)
  unfolding frame_of body
  frame_of_lem op payload small =
      let size : (5 + length payload) % 2 ^ 32 ≡ 5 + length payload = omega arith in
      rw size (ground arith)

  decode-body :
      (op : OpType) (payload : Bytes)
      → decode_entry_frame lib cipher (body op payload)
        ≡ decode_parts lib cipher (lib.checksum (op_byte op ∷ payload)) (op_byte op) payload
  unfolding decode_entry_frame body
  decode-body op payload =
      ap (λ n. decode_parts lib cipher n (op_byte op) payload)
        (put_uint32_lem (lib.checksum (op_byte op ∷ payload))
          (lib.checksum-lt (op_byte op ∷ payload)))

  read_length-append :
      (b rest : Bytes)
      → 5 ≤ length b
      → read_length lib cipher (length b) (b ++ rest) ≡ read_frame lib cipher b rest
  unfolding read_length
  read_length-append b rest whole =
      ground (arith, length-append b rest, take-append_length b rest, drop-append_length b rest)

  read_length-body :
      (op : OpType) (payload rest : Bytes)
      → read_length lib cipher (5 + length payload) (body op payload ++ rest)
        ≡ read_frame lib cipher (body op payload) rest
  read_length-body op payload rest =
      ap (λ n. read_length lib cipher n (body op payload ++ rest)) (sym (length-body op payload))
      ∙ read_length-append (body op payload) rest (omega (arith, length-body op payload))

  read_one_entry-frame :
      (op : OpType) (payload rest : Bytes)
      → 5 + length payload < 2 ^ 32
      → read_one_entry lib cipher ((put_uint32 (5 + length payload) ++ body op payload) ++ rest)
        ≡ read_frame lib cipher (body op payload) rest
  unfolding read_one_entry
  read_one_entry-frame op payload rest small =
      ap (λ n. read_length lib cipher n (body op payload ++ rest))
        (put_uint32_lem (5 + length payload) small)
      ∙ read_length-body op payload rest

  decode-wire_payload :
      (e : Entry) (p : WirePayload)
      → IsLoggable e
      → wire_payload lib cipher e ≡ done p
      → decode_entry_frame lib cipher (body e.op_type (lib.marshal p)) ≡ done (wire e)
  unfolding decode_parts
  decode-wire_payload e p text h =
      decode-body e.op_type (lib.marshal p)
      ∙ ground (
        arith,
        lib.unmarshal-marshal p (text.payload p h),
        op_of_byte-op_byte e.op_type,
        entry_of-wire_payload e p text h,
      )

  read_frame-body :
      (e : Entry) (p : WirePayload) (rest : Bytes)
      → IsLoggable e
      → wire_payload lib cipher e ≡ done p
      → read_frame lib cipher (body e.op_type (lib.marshal p)) rest ≡ reads (wire e) rest
  unfolding read_frame wire
  read_frame-body e p rest text h = rw (decode-wire_payload e p text h, read_frame) refl

  -- what a frame is made of
  pub frame_parts :
      (e : Entry) (bytes : Bytes)
      → IsLoggable e
      → encode_entry_frame lib cipher e ≡ done bytes
      → (p : WirePayload) × (wire_payload lib cipher e ≡ done p)
        × (bytes ≡ put_uint32 (5 + length (lib.marshal p)) ++ body e.op_type (lib.marshal p))
  unfolding encode_entry_frame
  frame_parts e bytes text h = elim (result_cases (wire_payload lib cipher e)) [
    | inl (x, f) ↦ absurd (ground (arith, f, h))
    | inr (p, f) ↦
        (p, f, ground (arith, f, h, frame_of_lem e.op_type (lib.marshal p) (text.small p f)))
  ]

  -- The frame of an entry whose texts JSON keeps and whose payload fits the length, encrypted or
  -- not and with any bytes behind it, is read as the entry, with its session as JSON keeps it and
  -- without one for a deletion, and the bytes behind it are left.
  pub read_one_entry-encode :
      (e : Entry) (bytes rest : Bytes)
      → IsLoggable e
      → encode_entry_frame lib cipher e ≡ done bytes
      → read_one_entry lib cipher (bytes ++ rest) ≡ reads (wire e) rest
  read_one_entry-encode e bytes rest text h =
      let (p, f, shape) = frame_parts e bytes text h in
      ap (λ b. read_one_entry lib cipher (b ++ rest)) shape
      ∙ read_one_entry-frame e.op_type (lib.marshal p) rest (text.small p f)
      ∙ read_frame-body e p rest text f
