-- ===== src/Wire/Frame/Request.antt =====
-- What the broker reads from a request frame.
use kafka_wire.Prelude.{
  ℕ, ◌+◌, ◌-◌, ◌*◌, ◌^◌, ◌≤◌, ◌≡◌, inl, inr, Bool, List, [], length, take, drop, slice, arith,
  length-drop, length-take, drop-drop, Bool-cases, subst, sym, ap, ◌∙◌, true, false,
}
use kafka_wire.Prelude.Result.{ok, Result-cases}
use kafka_wire.Prelude.Int.{ℤ, ltb_ℤ, pos, pos_part, ◌≤ℤ◌, signed}
use kafka_wire.Prelude.Bytes.{be_uint}
use kafka_wire.Wire.Frame.Tagged.{skip_tagged_fields-le}
use kafka_wire.Wire.Frame.{RequestHeader, parse_client_id, parse_frame, tagged_bytes, read_request}

-- A body that is the end of a frame, from a position behind the fixed header and the client id, which
-- stands there in full.
abbrev pub IsBody : List ℕ → List ℕ → List ℕ → Type 0
IsBody frame client_id body =
    (k : ℕ) × (10 + length client_id ≤ k)
    × (k ≤ length frame)
    × (body ≡ drop k frame)
    × (client_id ≡ slice 10 (10 + length client_id) frame)

-- What one accepted request is: a frame of 10 bytes to the limit, wholly on the connection.
pub record IsTaken (max_bytes : ℤ) (stream client_id body rest : List ℕ) (n : ℕ) : Type 0 where
  pub least : 10 ≤ n
  pub most : n ≤ 16 * 1024 * 1024
  pub below_max : pos n ≤ℤ max_bytes
  pub whole : 4 + n ≤ length stream
  pub left : rest ≡ drop (4 + n) stream
  pub inner : IsBody (take n (drop 4 stream)) client_id body

client_id_lem :
    (frame client_id : List ℕ) (start : ℕ)
    → 10 ≤ length frame
    → parse_client_id frame ≡ ok (client_id, start)
    → (start ≡ 10 + length client_id)
      × (start ≤ length frame)
      × (client_id ≡ slice 10 (10 + length client_id) frame)
unfolding parse_client_id
client_id_lem frame client_id start long e =
    let len = signed (2 ^ 15) (be_uint (slice 8 10 frame)) in
    let n = pos_part len in
    elim (Bool-cases (ltb_ℤ len (pos 0))) [
      | inl null ↦
          let nothing : client_id ≡ [] = ground (arith, e, null) in
          (
            ground (arith, e, null, nothing),
            ground (arith, e, null, long),
            nothing ∙ ap (λ t. slice 10 (10 + length t) frame) (sym nothing),
          )
      | inr some_length ↦
          let text : client_id ≡ slice 10 (10 + n) frame = ground (arith, e, some_length) in
          let fits : 10 + n ≤ length frame = ground (arith, e, some_length) in
          let size : n ≡ length client_id = omega (
            arith,
            ap length text,
            length-take (10 + n - 10) (drop 10 frame),
            length-drop 10 frame,
            fits,
          ) in
          (
            ground (arith, e, some_length, size),
            ground (arith, e, some_length, fits),
            text ∙ ap (λ m. slice 10 (10 + m) frame) size,
          )
    ]

tagged_bytes-le :
    (flexible : Bool) (rest : List ℕ) (n : ℕ) → tagged_bytes flexible rest ≡ ok n → n ≤ length rest
tagged_bytes-le true rest n e = skip_tagged_fields-le rest n e
tagged_bytes-le false rest n e = ground (arith, e)

parse_frame-IsBody :
    (is_flexible : ℤ → ℤ → Bool) (frame : List ℕ) (h : RequestHeader) (body : List ℕ)
    → parse_frame is_flexible frame ≡ ok (h, body)
    → (10 ≤ length frame) × IsBody frame h.client_id body
unfolding parse_frame
parse_frame-IsBody is_flexible frame h body e = elim (Result-cases (parse_client_id frame)) [
  | inr (x, p) ↦ absurd (ground (arith, p, e))
  | inl ((client_id, start), p) ↦
      let flexible =
        is_flexible (signed (2 ^ 15) (be_uint (slice 0 2 frame)))
          (signed (2 ^ 15) (be_uint (slice 2 4 frame))) in
      elim (Result-cases (tagged_bytes flexible (drop start frame))) [
        | inr (x, q) ↦ absurd (ground (arith, p, q, e))
        | inl (n, q) ↦
            let long : 10 ≤ length frame = ground (arith, p, q, e) in
            let (at, inside, text) = client_id_lem frame client_id start long p in
            let skipped = tagged_bytes-le flexible (drop start frame) n q in
            let id : client_id ≡ h.client_id = ground (arith, p, q, e) in
            let rest : body ≡ drop (start + n) frame = ground (arith, p, q, e) in
            (
              long,
              subst (λ c. IsBody frame c body) id
                  (
                    start + n,
                    omega (arith, at),
                    omega (arith, skipped, length-drop start frame, inside),
                    rest,
                    text,
                  ),
            )
      ]
]

-- An accepted request took a frame of 10 bytes at least, and of 16 MiB and the configured maximum at
-- most, that was wholly on the connection. The rest of the connection is what follows the frame. The
-- client id of the header stands behind the 10 bytes of the fixed header, and the body is the end of the
-- frame from a position behind that.
pub read_request-IsTaken :
    (is_flexible : ℤ → ℤ → Bool) (max_bytes : ℤ) (stream : List ℕ) (h : RequestHeader)
    (body rest : List ℕ)
    → read_request is_flexible max_bytes stream ≡ ok (h, body, rest)
    → (n : ℕ) × IsTaken max_bytes stream h.client_id body rest n
unfolding read_request
read_request-IsTaken is_flexible max_bytes stream h body rest e =
    let n = pos_part (signed (2 ^ 31) (be_uint (take 4 stream))) in
    elim (Result-cases (parse_frame is_flexible (take n (drop 4 stream)))) [
      | inr (x, p) ↦ absurd (ground (arith, p))
      | inl ((h', body'), p) ↦
          let took = length-take n (drop 4 stream) in
          let left = length-drop 4 stream in
          let past = drop-drop n 4 (4 + n) stream (omega arith) in
          let same_header : h' ≡ h = ground (arith, p, e) in
          let same_body : body' ≡ body = ground (arith, p, e) in
          let most : n ≤ 16 * 1024 * 1024 = ground (arith, p, e) in
          let below_max : pos n ≤ℤ max_bytes = ground (arith, p, e) in
          let whole : 4 + n ≤ length stream = ground (arith, p, e, left) in
          let same_rest : rest ≡ drop (4 + n) stream = ground (arith, p, e, past) in
          let (size, inner) = parse_frame-IsBody is_flexible (take n (drop 4 stream)) h' body' p in
          (
            n,
            record {
              least = omega (arith, size, took);
              most = most;
              below_max = below_max;
              whole = whole;
              left = same_rest;
              inner =
                  subst (λ b. IsBody (take n (drop 4 stream)) h.client_id b) same_body
                    (subst
                      (λ (g : RequestHeader). IsBody (take n (drop 4 stream)) g.client_id body')
                      same_header inner);
            },
          )
    ]
