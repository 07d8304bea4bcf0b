-- ===== src/Wire/Frame/Tests.antt =====
-- Frames of a few bytes.
use kafka_wire.Prelude.{
  ℕ, ◌+◌, ◌-◌, ◌^◌, ◌≡◌, refl, Bool, false, List, [], ◌∷◌, ◌++◌, length, drop, arith,
}
use kafka_wire.Prelude.Result.{ok}
use kafka_wire.Prelude.Int.{ℤ, pos}
use kafka_wire.Prelude.Bytes.{be_uint, put_be}
use kafka_wire.Wire.Frame.{
  uvarint, uvarint_loop, skip_fields, skip_tagged_fields, parse_client_id, parse_frame,
  read_request,
}
use kafka_wire.Wire.Frame.Tagged.{skip_fields_stuck}
use kafka_wire.Wire.Frame.Request.{IsTaken, read_request-IsTaken}
use kafka_wire.Wire.Frame.Encoded.{encode_frame, header_of, read_request-encode_frame}

abbrev inflexible : ℤ → ℤ → Bool
inflexible key version = false

abbrev client : List ℕ
client = 99 ∷ (108 ∷ [])

three_hundred : uvarint (172 ∷ (2 ∷ (7 ∷ []))) ≡ ok (300, 2)
unfolding uvarint uvarint_loop
three_hundred = refl

-- One field of tag 0 with two bytes.
abbrev one_field : List ℕ
one_field = 1 ∷ (0 ∷ (2 ∷ (5 ∷ (6 ∷ (7 ∷ [])))))

one_field_run : skip_tagged_fields one_field ≡ ok 5
unfolding skip_tagged_fields skip_fields uvarint uvarint_loop
one_field_run = refl

-- A field of tag 0 whose size is 2^64 - 11, written in ten bytes.
abbrev rewinding : List ℕ
rewinding = 0 ∷ (245 ∷ (255 ∷ (255 ∷ (255 ∷ (255 ∷ (255 ∷ (255 ∷ (255 ∷ (255 ∷ (1 ∷ []))))))))))

rewinding_tag : uvarint (drop 0 rewinding) ≡ ok (0, 1)
unfolding uvarint uvarint_loop
rewinding_tag = refl

rewinding_size : uvarint (drop (0 + 1) rewinding) ≡ ok (2 ^ 64 - (1 + 10), 10)
unfolding uvarint uvarint_loop
rewinding_size = refl

skip_fields_stuck_example : skip_fields 1000 rewinding 0 ≡ ok 0
skip_fields_stuck_example =
    skip_fields_stuck 1000 rewinding 0 0 1 10 (omega arith) (omega arith) rewinding_tag
      rewinding_size

abbrev request : List ℕ
request = encode_frame 3 9 77 client (1 ∷ (2 ∷ []))

length-request : length request ≡ 14
unfolding put_be
length-request = refl

read_request-encode_frame_example :
    read_request inflexible (pos 100) (
      put_be 4 (length (encode_frame 3 9 77 client (1 ∷ (2 ∷ []))))
      ++ (encode_frame 3 9 77 client (1 ∷ (2 ∷ [])) ++ (8 ∷ [])))
    ≡ ok (header_of 3 9 77 client, 1 ∷ (2 ∷ []), 8 ∷ [])
read_request-encode_frame_example =
    read_request-encode_frame inflexible (pos 100) 3 9 77 client (1 ∷ (2 ∷ [])) (8 ∷ [])
      (omega arith, omega arith, omega arith, omega arith) (omega (arith, length-request))
      (omega (arith, length-request)) refl

-- The same request, byte by byte.
abbrev stream : List ℕ
stream =
    0
    ∷ (0
        ∷ (0
            ∷ (14
                ∷ (0
                    ∷ (3
                        ∷ (0
                            ∷ (9
                                ∷ (0
                                    ∷ (0
                                        ∷ (0
                                            ∷ (77
                                                ∷ (0
                                                    ∷ (2
                                                        ∷ (99
                                                            ∷ (108
                                                            ∷ (1 ∷ (2 ∷ (8 ∷ []))))))))))))))))))

stream_run :
    read_request inflexible (pos 100) stream ≡ ok (header_of 3 9 77 client, 1 ∷ (2 ∷ []), 8 ∷ [])
unfolding read_request parse_frame parse_client_id be_uint
stream_run = refl

read_request-IsTaken_example : (n : ℕ) × IsTaken (pos 100) stream client (1 ∷ (2 ∷ [])) (8 ∷ []) n
read_request-IsTaken_example =
    read_request-IsTaken inflexible (pos 100) stream (header_of 3 9 77 client) (1 ∷ (2 ∷ []))
      (8 ∷ []) stream_run
