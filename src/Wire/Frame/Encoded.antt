-- ===== src/Wire/Frame/Encoded.antt =====
-- A request as a client writes it, and what the broker makes of it.
use kafka_wire.Prelude.{
  ℕ, ◌+◌, ◌-◌, ◌*◌, ◌^◌, ◌<◌, ◌≤◌, ◌≡◌, refl, ap, ◌∙◌, sym, Bool, false, List, ◌++◌, length, take,
  drop, slice, arith, length-append, take-append, drop-append, drop-drop, ltb,
}
use kafka_wire.Prelude.Result.{ok}
use kafka_wire.Prelude.Int.{ℤ, pos, ◌≤ℤ◌, signed}
use kafka_wire.Prelude.Bytes.{be_uint, put_be, length-put_be, be_uint-put_be}
use kafka_wire.Wire.Frame.{RequestHeader, parse_client_id, parse_frame, read_request}

-- The frame of a request with a header of version 1, field after field.
abbrev pub encode_frame : ℕ → ℕ → ℕ → List ℕ → List ℕ → List ℕ
encode_frame api_key api_version correlation_id client_id body =
    put_be 2 api_key
    ++ (put_be 2 api_version
        ++ (put_be 4 correlation_id ++ (put_be 2 (length client_id) ++ (client_id ++ body))))

module _ (api_key api_version correlation_id : ℕ) (client_id body : List ℕ)
    (small_key : api_key < 2 ^ 15) (small_version : api_version < 2 ^ 15)
    (small_id : correlation_id < 2 ^ 31) (small_client : length client_id < 2 ^ 15) where
  abbrev frame : List ℕ
  frame = encode_frame api_key api_version correlation_id client_id body

  length-frame : length frame ≡ 10 + length client_id + length body
  length-frame = omega (
    arith,
    length-append (put_be 2 api_key) (
        put_be 2 api_version
        ++ (put_be 4 correlation_id ++ (put_be 2 (length client_id) ++ (client_id ++ body)))),
    length-append (put_be 2 api_version)
        (put_be 4 correlation_id ++ (put_be 2 (length client_id) ++ (client_id ++ body))),
    length-append (put_be 4 correlation_id) (put_be 2 (length client_id) ++ (client_id ++ body)),
    length-append (put_be 2 (length client_id)) (client_id ++ body),
    length-append client_id body,
    length-put_be 2 api_key,
    length-put_be 2 api_version,
    length-put_be 4 correlation_id,
    length-put_be 2 (length client_id),
  )

  drop_2 :
      drop 2 frame
      ≡ put_be 2 api_version
        ++ (put_be 4 correlation_id ++ (put_be 2 (length client_id) ++ (client_id ++ body)))
  drop_2 = drop-append 2 (put_be 2 api_key) _ (length-put_be 2 api_key)

  drop_4 :
      drop 4 frame ≡ put_be 4 correlation_id ++ (put_be 2 (length client_id) ++ (client_id ++ body))
  drop_4 =
      sym (drop-drop 2 2 4 frame (omega arith))
      ∙ ap (drop 2) drop_2
      ∙ drop-append 2 (put_be 2 api_version) _ (length-put_be 2 api_version)

  drop_8 : drop 8 frame ≡ put_be 2 (length client_id) ++ (client_id ++ body)
  drop_8 =
      sym (drop-drop 4 4 8 frame (omega arith))
      ∙ ap (drop 4) drop_4
      ∙ drop-append 4 (put_be 4 correlation_id) _ (length-put_be 4 correlation_id)

  drop_10 : drop 10 frame ≡ client_id ++ body
  drop_10 =
      sym (drop-drop 2 8 10 frame (omega arith))
      ∙ ap (drop 2) drop_8
      ∙ drop-append 2 (put_be 2 (length client_id)) _ (length-put_be 2 (length client_id))

  key_lem : be_uint (slice 0 2 frame) ≡ api_key
  key_lem =
      ap be_uint (take-append 2 (put_be 2 api_key) _ (length-put_be 2 api_key))
      ∙ be_uint-put_be 2 api_key (omega arith)

  version_lem : be_uint (slice 2 4 frame) ≡ api_version
  version_lem =
      ap be_uint
        (ap (take 2) drop_2 ∙ take-append 2 (put_be 2 api_version) _ (length-put_be 2 api_version))
      ∙ be_uint-put_be 2 api_version (omega arith)

  id_lem : be_uint (slice 4 8 frame) ≡ correlation_id
  id_lem =
      ap be_uint (
        ap (take 4) drop_4
        ∙ take-append 4 (put_be 4 correlation_id) _ (length-put_be 4 correlation_id))
      ∙ be_uint-put_be 4 correlation_id (omega arith)

  client_lem : be_uint (slice 8 10 frame) ≡ length client_id
  client_lem =
      ap be_uint (
        ap (take 2) drop_8
        ∙ take-append 2 (put_be 2 (length client_id)) _ (length-put_be 2 (length client_id)))
      ∙ be_uint-put_be 2 (length client_id) (omega arith)

  client_slice : slice 10 (10 + length client_id) frame ≡ client_id
  client_slice =
      ap (λ n. take n (drop 10 frame)) {x = 10 + length client_id - 10} {y = length client_id}
        (omega arith)
      ∙ ap (take (length client_id)) drop_10
      ∙ take-append (length client_id) client_id body refl

  body_lem : drop (10 + length client_id) frame ≡ body
  body_lem =
      sym (drop-drop (length client_id) 10 (10 + length client_id) frame (omega arith))
      ∙ ap (drop (length client_id)) drop_10
      ∙ drop-append (length client_id) client_id body refl

client_id_at :
    (frame client_id : List ℕ)
    → be_uint (slice 8 10 frame) ≡ length client_id
    → length client_id < 2 ^ 15
    → 10 + length client_id ≤ length frame
    → slice 10 (10 + length client_id) frame ≡ client_id
    → parse_client_id frame ≡ ok (client_id, 10 + length client_id)
unfolding parse_client_id
client_id_at frame client_id e small fits inner =
    let n : ℕ = be_uint (slice 8 10 frame) in
    let plain : signed (2 ^ 15) (be_uint (slice 8 10 frame)) ≡ pos (length client_id) =
      ground arith in
    rw plain (ground (arith, inner))

positive : (half n : ℕ) → n < half → signed half n ≡ pos n
positive half n h = ground arith

abbrev pub header_of : ℕ → ℕ → ℕ → List ℕ → RequestHeader
header_of api_key api_version correlation_id client_id = record {
  api_key = pos api_key;
  api_version = pos api_version;
  correlation_id = pos correlation_id;
  client_id = client_id;
}

frame_at :
    (is_flexible : ℤ → ℤ → Bool) (frame client_id body : List ℕ) (k v i : ℕ)
    → be_uint (slice 0 2 frame) ≡ k
    → be_uint (slice 2 4 frame) ≡ v
    → be_uint (slice 4 8 frame) ≡ i
    → k < 2 ^ 15
    → v < 2 ^ 15
    → i < 2 ^ 31
    → 10 ≤ length frame
    → parse_client_id frame ≡ ok (client_id, 10 + length client_id)
    → drop (10 + length client_id) frame ≡ body
    → is_flexible (pos k) (pos v) ≡ false
    → parse_frame is_flexible frame ≡ ok (header_of k v i client_id, body)
unfolding parse_frame
frame_at is_flexible frame client_id body k v i ek ev ei hk hv hi long client inner old =
    let key : signed (2 ^ 15) (be_uint (slice 0 2 frame)) ≡ pos k =
      ap (signed (2 ^ 15)) ek ∙ positive (2 ^ 15) k hk in
    let version : signed (2 ^ 15) (be_uint (slice 2 4 frame)) ≡ pos v =
      ap (signed (2 ^ 15)) ev ∙ positive (2 ^ 15) v hv in
    let id : signed (2 ^ 31) (be_uint (slice 4 8 frame)) ≡ pos i =
      ap (signed (2 ^ 31)) ei ∙ positive (2 ^ 31) i hi in
    let whole : ltb (length frame) 8 ≡ false = ground arith in
    let long_enough : ltb (length frame) 10 ≡ false = ground arith in
    let inner' : drop (10 + length client_id + 0) frame ≡ body =
      ap (λ n. drop n frame) {x = 10 + length client_id + 0} {y = 10 + length client_id}
        (omega arith)
      ∙ inner in
    rw (key, version, id, client, old, whole, long_enough)
      (ap (λ b. ok (header_of k v i client_id, b)) inner')

request_at :
    (is_flexible : ℤ → ℤ → Bool) (max_bytes : ℤ) (frame rest body : List ℕ) (h : RequestHeader)
    → 0 < length frame
    → length frame ≤ 16 * 1024 * 1024
    → pos (length frame) ≤ℤ max_bytes
    → parse_frame is_flexible frame ≡ ok (h, body)
    → read_request is_flexible max_bytes (put_be 4 (length frame) ++ (frame ++ rest))
      ≡ ok (h, body, rest)
unfolding read_request
request_at is_flexible max_bytes frame rest body h some_byte fits below parsed =
    let stream : List ℕ = put_be 4 (length frame) ++ (frame ++ rest) in
    let size : signed (2 ^ 31) (be_uint (take 4 stream)) ≡ pos (length frame) =
      ap (λ b. signed (2 ^ 31) (be_uint b))
        (take-append 4 (put_be 4 (length frame)) (frame ++ rest) (length-put_be 4 (length frame)))
      ∙ ap (signed (2 ^ 31)) (be_uint-put_be 4 (length frame) (omega arith))
      ∙ positive (2 ^ 31) (length frame) (omega arith) in
    let behind : drop 4 stream ≡ frame ++ rest =
      drop-append 4 (put_be 4 (length frame)) (frame ++ rest) (length-put_be 4 (length frame)) in
    let whole : ltb (length stream) 4 ≡ false = ground (
      arith,
      length-append (put_be 4 (length frame)) (frame ++ rest),
      length-put_be 4 (length frame),
    ) in
    let there : ltb (length (frame ++ rest)) (length frame) ≡ false =
      ground (arith, length-append frame rest) in
    rw
      (
        whole,
        size,
        behind,
        there,
        take-append (length frame) frame rest refl,
        parsed,
        drop-append (length frame) frame rest refl,
      )
      (ground arith)

-- A request with a header of version 1, framed as the protocol says and with fields in range, is read
-- back: its header, its body, and what follows it on the connection. The frame is within 16 MiB and the
-- configured maximum, and the table of flexible versions does not list the request's.
pub read_request-encode_frame :
    (is_flexible : ℤ → ℤ → Bool) (max_bytes : ℤ) (k v i : ℕ) (client_id body rest : List ℕ)
    → (k < 2 ^ 15) × (v < 2 ^ 15) × (i < 2 ^ 31) × (length client_id < 2 ^ 15)
    → length (encode_frame k v i client_id body) ≤ 16 * 1024 * 1024
    → pos (length (encode_frame k v i client_id body)) ≤ℤ max_bytes
    → is_flexible (pos k) (pos v) ≡ false
    → read_request is_flexible max_bytes (
        put_be 4 (length (encode_frame k v i client_id body))
        ++ (encode_frame k v i client_id body ++ rest))
      ≡ ok (header_of k v i client_id, body, rest)
read_request-encode_frame is_flexible max_bytes k v i client_id body rest (hk, hv, hi, hc) fits
      below old =
    let long = length-frame k v i client_id body hk hv hi hc in
    request_at is_flexible max_bytes (encode_frame k v i client_id body) rest body
      (header_of k v i client_id) (omega (arith, long)) fits below
      (frame_at is_flexible (encode_frame k v i client_id body) client_id body k v i
        (key_lem k v i client_id body hk hv hi hc) (version_lem k v i client_id body hk hv hi hc)
        (id_lem k v i client_id body hk hv hi hc) hk hv hi (omega (arith, long))
        (client_id_at (encode_frame k v i client_id body) client_id
          (client_lem k v i client_id body hk hv hi hc) hc (omega (arith, long))
          (client_slice k v i client_id body hk hv hi hc))
        (body_lem k v i client_id body hk hv hi hc) old)
