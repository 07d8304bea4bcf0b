-- ===== src/Broker/Topics/ServiceTests.antt =====
-- A tenant that creates a topic by writing to it, and a topic that is deleted and created again.
use kafka_wire.Prelude.{ℕ, ◌≡◌, refl, ap, true, false, List, [], ◌∷◌, Option, ◌+◌, none, arith}
use kafka_wire.Prelude.Result.{ok, err}
use kafka_wire.Prelude.Int.{pos, negsuc, ◌-ℤ◌, ◌+ℤ◌, wrap_64, bits_64}
use kafka_wire.Prelude.Bytes.{be_uint}
use kafka_wire.Prelude.Search.{search}
use kafka_wire.Storage.Batches.{next_size, trim_loop, trim_to_batch_boundary}
use kafka_wire.Prelude.Map.{same, find, put, remove}
use kafka_wire.Storage.Segment.{
  Segment, open_segment, recover, read_at, find_batch_at, find_loop, zeros,
}
use kafka_wire.Storage.Index.{open_index, lookup_position}
use kafka_wire.Storage.TimeIndex.{open_time_index}
use kafka_wire.Storage.Record.{
  parse_batch_header, check_header, decode_header, batch_size, last_offset,
}
use kafka_wire.Storage.Samples.{no_checksum, sample, sample-valid}
use kafka_wire.Storage.Log.{
  Log, Config, open_log, open_all, high_watermark, new_files, segment_opts, active_segment,
  fetch_at, find_segment, find_in, starts_after, fetch_from, serve, base_of,
}
use kafka_wire.Storage.Log.Writable.{IsWritable}
use kafka_wire.Storage.Log.Rising.{forward-IsRising}
use kafka_wire.Storage.Log.Append.{append-IsValid}
use kafka_wire.Storage.Log.Writing.{IsRising}
use kafka_wire.Tiering.Manifest.{SegmentEntry}
use kafka_wire.Broker.Names.{validate_name, check_characters, is_allowed}
use kafka_wire.Broker.Topics.{Topic, partition, verify_topic_tenant}
use kafka_wire.Broker.Topics.Registry.{create, open_partitions, unregister}
use kafka_wire.Broker.Topics.Archive.{fetch_from_archive, out_of_range}
use kafka_wire.Broker.Topics.Service.{
  without_directory, Broker, Fetched, ensure_topic_for_tenant, create_topic, delete_topic,
  append_to, append_batches_authorized, fetch_internal, fetch_authorized, lift_log,
}
use kafka_wire.Broker.Topics.Tenants.{
  IsOpenTo, append_batches_authorized-IsOpenTo, fetch_authorized-IsOpenTo,
}
use kafka_wire.Broker.Topics.Renewal.{IsFresh, delete_topic-create_topic}

abbrev topic : List ℕ
topic = 116 ∷ []

abbrev tenant : List ℕ
tenant = 97 ∷ []

abbrev storage : Config
storage = record { segment_bytes = 1024; segment_ms = 1000; index_interval = 4096 }

abbrev broker : Broker
broker = record {
  storage = storage;
  auto_create = true;
  default_partitions = pos 1;
  default_rep_factor = pos 1;
  topics = [];
  disk = λ name i. [];
  manifest = none;
}

abbrev empty_log : Log
empty_log = open_log no_checksum storage 8 []

empty_log-IsWritable : IsWritable empty_log
unfolding open_log open_all open_segment recover open_index open_time_index
empty_log-IsWritable = (
  [],
  open_segment no_checksum (segment_opts storage (pos 0)) (new_files 8),
  refl,
  record { unsealed = refl; at_end = refl; fits = (omega arith, omega arith) },
  (tt, omega arith),
)

sample-IsRising : IsRising (high_watermark empty_log) (sample ∷ [])
unfolding high_watermark active_segment decode_header be_uint open_log open_all open_segment recover
    open_index open_time_index
sample-IsRising =
    forward-IsRising (high_watermark empty_log) (sample ∷ []) (omega arith)
      ((omega arith, omega arith), tt) (omega arith)

written :
    (append_batches_authorized no_checksum false
      (λ n. 8 + n)
      broker
      topic
      (pos 0)
      (sample ∷ [])
      tenant).1
    ≡ ok (high_watermark empty_log)
unfolding append_batches_authorized ensure_topic_for_tenant create find same put open_partitions
    append_to verify_topic_tenant partition
written =
    let (l', e, added) =
      append-IsValid no_checksum (λ n. 8 + n) empty_log (sample ∷ []) empty_log-IsWritable
        (ground arith) (sample-valid, tt) sample-IsRising in
    ap (λ x. lift_log x.1) e

append_batches_authorized-IsOpenTo_example :
    IsOpenTo
      (append_batches_authorized no_checksum false
        (λ n. 8 + n)
        broker
        topic
        (pos 0)
        (sample ∷ [])
        tenant).0.topics
      tenant
      topic
append_batches_authorized-IsOpenTo_example =
    append_batches_authorized-IsOpenTo no_checksum false (λ n. 8 + n) broker topic (pos 0)
      (sample ∷ []) tenant (high_watermark empty_log) tt written

abbrev filled : Segment
filled = record (open_segment no_checksum (segment_opts storage (pos 0)) (new_files 7)) {
  log_file = record { content = sample; cursor = 61 };
  log_size = 61;
  next_offset = pos 1;
}

abbrev one : Log
one = record { cfg = storage; segments = filled ∷ []; log_start = pos 0 }

abbrev owned : Topic
owned = record {
  name = topic;
  partitions = one ∷ [];
  cfg = record {
    num_partitions = pos 1;
    replication_factor = pos 1;
    retention_ms = negsuc 0;
    retention_bytes = negsuc 0;
    segment_bytes = pos 1024;
    owner_tenant_id = tenant;
  };
}

abbrev with_topic : Broker
with_topic = record broker { topics = (topic, owned) ∷ [] }

abbrev unrestored : SegmentEntry → Option (List ℕ)
unrestored e = none

abbrev first : Fetched
first = record { bytes = sample; first_offset = pos 0; high_watermark = pos 1; log_start = pos 0 }

fetched : fetch_authorized unrestored with_topic topic (pos 0) (pos 0) 100 tenant ≡ ok first
unfolding fetch_authorized fetch_internal find same verify_topic_tenant partition fetch_at
    fetch_from serve base_of find_segment find_in starts_after high_watermark active_segment read_at
    find_batch_at find_loop zeros open_segment recover open_index open_time_index lookup_position
    search decode_header parse_batch_header check_header batch_size last_offset next_size trim_loop
    trim_to_batch_boundary be_uint ◌-ℤ◌ ◌+ℤ◌ wrap_64 bits_64
fetched = refl

fetch_authorized-IsOpenTo_example : IsOpenTo with_topic.topics tenant topic
fetch_authorized-IsOpenTo_example =
    fetch_authorized-IsOpenTo unrestored with_topic topic (pos 0) (pos 0) 100 tenant first fetched

abbrev bare : Broker
bare = record with_topic { topics = []; disk = without_directory with_topic.disk topic }

deletion : delete_topic with_topic topic ≡ ok bare
unfolding delete_topic unregister find same remove validate_name check_characters is_allowed
deletion = refl

abbrev renewed : Topic
renewed = record owned {
  partitions = empty_log ∷ empty_log ∷ [];
  cfg = record (owned.cfg) { num_partitions = pos 2; owner_tenant_id = [] };
}

creation :
    create_topic no_checksum 8 bare topic (pos 2) (pos 1)
    ≡ ok (record bare { topics = (topic, renewed) ∷ [] }, renewed)
unfolding create_topic create find same put open_partitions validate_name check_characters
    is_allowed
creation = refl

delete_topic-create_topic_example :
    IsFresh no_checksum 8 storage topic
      (pos 2)
      (record bare { topics = (topic, renewed) ∷ [] }, renewed)
    × (fetch_from_archive none unrestored topic (pos 0) (pos 0) 100 tenant ≡ err out_of_range)
delete_topic-create_topic_example =
    delete_topic-create_topic no_checksum 8 with_topic bare topic unrestored (pos 0) (pos 0) 100
      tenant (pos 2) (pos 1) (record bare { topics = (topic, renewed) ∷ [] }, renewed) deletion
      creation
