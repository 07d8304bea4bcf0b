-- ===== src/Storage/Samples.antt =====
-- Batches that the tests of several modules use. Their checksum field is that of a checksum that is
-- always 0.
use kafka_wire.Prelude.{ℕ, ◌≡◌, refl, List, [], ◌∷◌}
use kafka_wire.Prelude.Result.{ok}
use kafka_wire.Prelude.Bytes.{be_uint}
use kafka_wire.Storage.Record.{
  decode_header, check_header, parse_batch_header, batch_size, validate_crc, compression,
  validate_compression_codec, validate_batch_attributes, validate_batch_for_append,
}
use kafka_wire.Storage.Batches.{IsFramed}

abbrev pub no_checksum : List ℕ → ℕ
no_checksum covered = 0

-- One record, at the last offset delta 0.
abbrev pub sample : List ℕ
sample =
    0
    ∷ (0
        ∷ (0
            ∷ (0
                ∷ (0
                    ∷ (0
                        ∷ (0
                            ∷ (0
                                ∷ (0
                                    ∷ (0
                                        ∷ (0
                                            ∷ (49
                                                ∷ (0
                                                    ∷ (0
                                                        ∷ (0
                                                            ∷ (7
                                                            ∷ (2
                                                            ∷ (0
                                                            ∷ (0
                                                            ∷ (0
                                                            ∷ (0
                                                            ∷ (0
                                                            ∷ (0
                                                            ∷ (0
                                                            ∷ (0
                                                            ∷ (0
                                                            ∷ (0
                                                            ∷ (0
                                                            ∷ (0
                                                            ∷ (0
                                                            ∷ (0
                                                            ∷ (0
                                                            ∷ (0
                                                            ∷ (0
                                                            ∷ (0
                                                            ∷ (0
                                                            ∷ (0
                                                            ∷ (0
                                                            ∷ (0
                                                            ∷ (0
                                                            ∷ (0
                                                            ∷ (0
                                                            ∷ (5
                                                            ∷ (255
                                                            ∷ (255
                                                            ∷ (255
                                                            ∷ (255
                                                            ∷ (255
                                                            ∷ (255
                                                            ∷ (255
                                                            ∷ (255
                                                            ∷ (255
                                                            ∷ (255
                                                            ∷ (255
                                                            ∷ (255
                                                            ∷ (255
                                                            ∷ (255 ∷ (0 ∷ (0 ∷ (0 ∷ (1 ∷ [])))))))))
                                                            ))))))))))))))))))))))))))))))))))))))))
                                                            )))))))))))

-- The same with the last offset delta -3.
abbrev pub backward : List ℕ
backward =
    0
    ∷ (0
        ∷ (0
            ∷ (0
                ∷ (0
                    ∷ (0
                        ∷ (0
                            ∷ (0
                                ∷ (0
                                    ∷ (0
                                        ∷ (0
                                            ∷ (49
                                                ∷ (0
                                                    ∷ (0
                                                        ∷ (0
                                                            ∷ (7
                                                            ∷ (2
                                                            ∷ (0
                                                            ∷ (0
                                                            ∷ (0
                                                            ∷ (0
                                                            ∷ (0
                                                            ∷ (0
                                                            ∷ (255
                                                            ∷ (255
                                                            ∷ (255
                                                            ∷ (253
                                                            ∷ (0
                                                            ∷ (0
                                                            ∷ (0
                                                            ∷ (0
                                                            ∷ (0
                                                            ∷ (0
                                                            ∷ (0
                                                            ∷ (0
                                                            ∷ (0
                                                            ∷ (0
                                                            ∷ (0
                                                            ∷ (0
                                                            ∷ (0
                                                            ∷ (0
                                                            ∷ (0
                                                            ∷ (5
                                                            ∷ (255
                                                            ∷ (255
                                                            ∷ (255
                                                            ∷ (255
                                                            ∷ (255
                                                            ∷ (255
                                                            ∷ (255
                                                            ∷ (255
                                                            ∷ (255
                                                            ∷ (255
                                                            ∷ (255
                                                            ∷ (255
                                                            ∷ (255
                                                            ∷ (255 ∷ (0 ∷ (0 ∷ (0 ∷ (1 ∷ [])))))))))
                                                            ))))))))))))))))))))))))))))))))))))))))
                                                            )))))))))))

pub sample-IsFramed : IsFramed sample
unfolding parse_batch_header check_header decode_header be_uint batch_size
sample-IsFramed = (decode_header sample, refl, refl)

pub sample-valid : validate_batch_for_append no_checksum sample ≡ ok tt
unfolding validate_batch_for_append parse_batch_header check_header decode_header be_uint
    validate_crc validate_batch_attributes validate_compression_codec compression
sample-valid = refl

pub backward-valid : validate_batch_for_append no_checksum backward ≡ ok tt
unfolding validate_batch_for_append parse_batch_header check_header decode_header be_uint
    validate_crc validate_batch_attributes validate_compression_codec compression
backward-valid = refl
