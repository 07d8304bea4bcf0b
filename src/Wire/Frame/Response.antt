-- ===== src/Wire/Frame/Response.antt =====
-- What a client reads from a response frame.
use kafka_wire.Prelude.{
  ℕ, ◌+◌, ◌%◌, ◌^◌, ◌<◌, ◌≡◌, ap, ◌∙◌, sym, Bool, true, false, List, ◌∷◌, ◌++◌, length, take, drop,
  slice, arith, length-append, take-append, drop-append, drop-drop,
}
use kafka_wire.Prelude.Int.{ℤ, pos, negsuc, bits_32}
use kafka_wire.Prelude.Bytes.{be_uint, put_be, length-put_be, be_uint-put_be}
use kafka_wire.Wire.Frame.{write_response}

bits_32-lt : (a : ℤ) → bits_32 a < 256 ^ 4
unfolding bits_32
bits_32-lt (pos n) = omega arith
bits_32-lt (negsuc n) = omega arith

-- The bytes behind the correlation id: a flexible header ends in an empty list of tagged fields.
abbrev pub tail_of : List ℕ → Bool → List ℕ
tail_of body true = 0 ∷ body
tail_of body false = body

module _ (n m : ℕ) (rest : List ℕ) where
  abbrev frame : List ℕ
  frame = put_be 4 n ++ (put_be 4 m ++ rest)

  drop_size : drop 4 frame ≡ put_be 4 m ++ rest
  drop_size = drop-append 4 (put_be 4 n) (put_be 4 m ++ rest) (length-put_be 4 n)

  take_size : take 4 frame ≡ put_be 4 n
  take_size = take-append 4 (put_be 4 n) (put_be 4 m ++ rest) (length-put_be 4 n)

  slice_id : slice 4 8 frame ≡ put_be 4 m
  slice_id = ap (take 4) drop_size ∙ take-append 4 (put_be 4 m) rest (length-put_be 4 m)

  drop_id : drop 8 frame ≡ rest
  drop_id =
      sym (drop-drop 4 4 8 frame (omega arith))
      ∙ ap (drop 4) drop_size
      ∙ drop-append 4 (put_be 4 m) rest (length-put_be 4 m)

  pub read_back :
      n < 256 ^ 4
      → m < 256 ^ 4
      → n ≡ 4 + length rest
      → (be_uint (take 4 frame) ≡ length (drop 4 frame))
        × (be_uint (slice 4 8 frame) ≡ m)
        × (drop 8 frame ≡ rest)
  read_back hn hm size = (
    ap be_uint take_size
        ∙ be_uint-put_be 4 n hn
        ∙ size
        ∙ sym (
            ap length drop_size
            ∙ omega (arith, length-append (put_be 4 m) rest, length-put_be 4 m)),
    ap be_uint slice_id ∙ be_uint-put_be 4 m hm,
    drop_id,
  )

-- A response below 4 GiB reads back as it was written: its size prefix counts the bytes behind it, the
-- correlation id is the request's, and what follows is the body, behind the one byte of an empty
-- tagged section where the header is flexible.
pub write_response-read :
    (id : ℤ) (body : List ℕ) (flexible : Bool)
    → 5 + length body < 2 ^ 32
    → (be_uint (take 4 (write_response id body flexible))
        ≡ length (drop 4 (write_response id body flexible)))
      × (be_uint (slice 4 8 (write_response id body flexible)) ≡ bits_32 id)
      × (drop 8 (write_response id body flexible) ≡ tail_of body flexible)
unfolding write_response
write_response-read id body true small =
    read_back ((5 + length body) % 2 ^ 32) (bits_32 id) (0 ∷ body) (omega arith) (bits_32-lt id)
      (omega arith)
write_response-read id body false small =
    read_back ((4 + length body) % 2 ^ 32) (bits_32 id) body (omega arith) (bits_32-lt id)
      (omega arith)
