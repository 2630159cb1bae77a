-- ===== src/Ingest.antt =====
-- Bounded transport of records: backend/app/ingest_chunks.py and scan_runtime/ingest_chunks.py.
-- The worker slices what it sends, the server validates what it has parsed. Each side measures its own
-- records by `json.dumps`, which is the parameter `Encoder`; Received relates the two.
pub mod Bounds
pub mod Received
pub mod Complete
pub mod Spool
use nuclei_dashboard.Base.{
  Bool, List, Option, [], any, false, if◌then◌else◌, length, ltb, map, none, some, sum, true, ℕ,
  ◌&&◌, ◌++◌, ◌+◌, ◌-◌, ◌||◌, ◌∷◌, ◌≡◌,
}

-- `json.dumps(value, separators=(",", ":"))` measured in bytes: of one record, and of a list of
-- records, which costs its two brackets and a comma between neighbours.
pub record Encoder (A : Type 0) : Type 0 where
  pub record_bytes : A → ℕ
  pub list_bytes : List A → ℕ
  pub list_bytes_lem :
      (rows : List A) → list_bytes rows ≡ 2 + sum (map record_bytes rows) + (length rows - 1)

pub record Limits : Type 0 where
  pub max_rows : ℕ
  pub max_bytes : ℕ

-- DEFAULT_INGEST_MAX_ROWS, DEFAULT_INGEST_MAX_BYTES
abbrev default_limits : Limits
default_limits = record { max_rows = 500; max_bytes = 1048576 }

pub data IngestError : Type 0 where
  too_many_rows record_too_large batch_too_large : IngestError

-- What a generator has yielded, and the exception that ended it.
pub record Yielded (A : Type 0) : Type 0 where
  pub chunks : List (List A)
  pub failure : Option IngestError

abbrev pub is_nonempty {ℓ} : {A : Type ℓ} → List A → Bool
is_nonempty [] = false
is_nonempty (x ∷ xs) = true

module _ {A : Type 0} (encoder : Encoder A) (limits : Limits) where
  open encoder use {record_bytes, list_bytes}
  open limits use {max_rows, max_bytes}

  -- A record that fits in no list.
  unfoldable pub is_oversized : A → Bool
  is_oversized row = ltb max_bytes (2 + record_bytes row)

  unfoldable pub validate_ingest_batch : List A → Option IngestError
  unfolding is_oversized
  validate_ingest_batch rows =
      if ltb max_rows (length rows)
      then some too_many_rows
      else if any is_oversized rows
      then some record_too_large
      else if ltb max_bytes (list_bytes rows)
      then some batch_too_large
      else none

  -- Whether the open chunk is yielded before the next record is added to it.
  unfoldable pub must_flush : List A → List ℕ → ℕ → Bool
  must_flush chunk item_sizes size =
      let next_count = length chunk + 1 in
      let next_bytes = 2 + sum item_sizes + size + length chunk in
      is_nonempty chunk && (ltb max_rows next_count || ltb max_bytes next_bytes)

  abbrev pub yield_first : List A → Yielded A → Yielded A
  yield_first chunk rest = record rest { chunks = chunk ∷ rest.chunks }

  -- The loop of `iter_ingest_chunks` over its variables `chunk` and `item_sizes`.
  unfoldable pub chunk_loop : List A → List ℕ → List A → Yielded A
  chunk_loop chunk item_sizes [] = record {
    chunks = if is_nonempty chunk then chunk ∷ [] else [];
    failure = none;
  }
  chunk_loop chunk item_sizes (row ∷ rows) =
      let size = record_bytes row in
      let flushed = chunk_loop (row ∷ []) (size ∷ []) rows in
      let grown = chunk_loop (chunk ++ row ∷ []) (item_sizes ++ size ∷ []) rows in
      if is_oversized row
      then record { chunks = []; failure = some record_too_large }
      else if must_flush chunk item_sizes size
      then yield_first chunk flushed
      else grown

  unfoldable pub iter_ingest_chunks : List A → Yielded A
  iter_ingest_chunks rows = chunk_loop [] [] rows

-- The worker's `iter_ingest_chunks`: a limit that is not given is the configured one.
abbrev resolve_limits : Limits → Option ℕ → Option ℕ → Limits
resolve_limits configured max_rows max_bytes = record {
  max_rows = elim max_rows [ none ↦ configured.max_rows | some n ↦ n ];
  max_bytes = elim max_bytes [ none ↦ configured.max_bytes | some n ↦ n ];
}

unfoldable worker_ingest_chunks :
    {A : Type 0} → Encoder A → Limits → Option ℕ → Option ℕ → List A → Yielded A
worker_ingest_chunks encoder configured max_rows max_bytes rows =
    iter_ingest_chunks encoder (resolve_limits configured max_rows max_bytes) rows
