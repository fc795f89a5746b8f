-- ===== src/Tests/Scans.antt =====
-- Runs of a scan and of the merge of two.
use sekas.Prelude.{
  ℕ, ◌≡◌, refl, true, false, not, ◌||◌, none, some, [], ◌∷◌, bytes_lt, bytes_eq, le_bytes, be_bytes,
  not_u64, from_be_bytes,
}
use sekas.Api.{ValueSet, ok}
use sekas.Schema.{in_range}
use sekas.Engine.Keys.{
  mvcc_key, revert_mvcc_key, version_of, decode_groups, encode_groups, collection_prefix,
}
use sekas.Engine.Snapshot.{SnapshotRange, Snapshot, entry_value, entry_version, data_value}
use sekas.Eval.Scan.{ShardScanRequest, ShardScanResponse, merge_scan_response, scan_inner}
use sekas.Eval.Scan.Merge.{IsAscending, lookup, is_covered, either, merge_scan_response-IsAscending}
use sekas.Eval.Scan.Limits.{IsResponse, scan_inner-IsResponse}
use sekas.Tests.Fixtures.{intent_codec}

abbrev values_of : ℕ → ℕ → ValueSet
values_of key version = record {
  user_key = key ∷ [];
  values = record { content = some (key ∷ []); version = version } ∷ [];
}

-- Both sides have the key 3.
abbrev target : ShardScanResponse
target = record { value_sets = values_of 1 8 ∷ values_of 3 8 ∷ []; has_more = false }

abbrev source : ShardScanResponse
source = record {
  value_sets = values_of 2 4 ∷ values_of 3 4 ∷ values_of 5 4 ∷ [];
  has_more = false;
}

target-IsAscending : IsAscending target.value_sets
unfolding bytes_lt
target-IsAscending = ((refl, tt), (tt, tt))

source-IsAscending : IsAscending source.value_sets
unfolding bytes_lt
source-IsAscending = ((refl, (refl, tt)), ((refl, tt), (tt, tt)))

merge_scan_response-IsAscending_example :
    IsAscending (merge_scan_response target source).value_sets
    × (not target.has_more || is_covered (3 ∷ []) target.value_sets ≡ true
        → lookup (3 ∷ []) (merge_scan_response target source).value_sets
          ≡ either (lookup (3 ∷ []) target.value_sets) (lookup (3 ∷ []) source.value_sets))
merge_scan_response-IsAscending_example =
    merge_scan_response-IsAscending target source (3 ∷ []) target-IsAscending source-IsAscending

abbrev request : ShardScanRequest
request = record {
  shard_id = 1;
  start_version = 9;
  limit = 1;
  limit_bytes = 0;
  exclude_start_key = false;
  exclude_end_key = false;
  prefix = none;
  start_key = none;
  end_key = some (4 ∷ []);
  include_raw_data = false;
  ignore_txn_intent = false;
  allow_scan_moving_shard = false;
}

-- Two keys, of which the first has a value that is newer than the reader.
abbrev stored : Snapshot
unfolding mvcc_key data_value
stored = record {
  collection_id = 7;
  range = SnapshotRange.range [] [];
  db_iter =
      (mvcc_key 7 (1 ∷ []) 12, data_value (5 ∷ []))
      ∷ (mvcc_key 7 (1 ∷ []) 8, data_value (6 ∷ []))
      ∷ (mvcc_key 7 (2 ∷ []) 8, data_value (7 ∷ []))
      ∷ [];
  current_key = none;
  cached_entry = none;
}

abbrev response : ShardScanResponse
response = record {
  value_sets =
      record { user_key = 1 ∷ []; values = record { content = some (6 ∷ []); version = 8 } ∷ [] }
      ∷ [];
  has_more = true;
}

scanned : scan_inner intent_codec (λ shard key reader intent. ok none) request stored ≡ ok response
unfolding scan_inner stored bytes_eq collection_prefix le_bytes in_range bytes_lt revert_mvcc_key
    decode_groups encode_groups be_bytes entry_version version_of not_u64 from_be_bytes entry_value
scanned = refl

scan_inner-IsResponse_example : IsResponse request response
scan_inner-IsResponse_example =
    scan_inner-IsResponse intent_codec (λ shard key reader intent. ok none) request stored response
      scanned
