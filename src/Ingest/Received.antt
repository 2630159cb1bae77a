-- ===== src/Ingest/Received.antt =====
-- What the server receives of the worker's chunks. The server validates each chunk once it is parsed, by
-- the sizes of the parsed records, which name every field of the schema, also those that were not sent.
use nuclei_dashboard.Base.{
  All, List, Option, [], any, arith, false, length, map, none, refl, sum, ℕ, ◌*◌, ◌+◌, ◌∷◌, ◌≡◌,
  ◌≤◌,
}
use native.Mathlib.Nat.{mul-le-mul_right}
use nuclei_dashboard.Ingest.{
  Encoder, IngestError, Limits, is_oversized, iter_ingest_chunks, validate_ingest_batch,
}
use nuclei_dashboard.Ingest.Bounds.{IsAccepted, iter_ingest_chunks-IsAccepted}

-- The parsing of one kind of records by its schema. A parsed record takes at most `extra` bytes more
-- than the record that was sent: those of the fields that it lacked, with their defaults.
pub record Parsing {A B : Type 0} (sent : Encoder A) (received : Encoder B) : Type 0 where
  pub parse : A → B
  pub extra : ℕ
  pub parse_lem : (row : A) → received.record_bytes (parse row) ≤ sent.record_bytes row + extra

module _ {A B : Type 0} (sent : Encoder A) (received : Encoder B) (parsing : Parsing sent received)
    (worker server : Limits) where
  open parsing use {parse, extra, parse_lem}

  -- What the server answers to a chunk.
  unfoldable pub receive : List A → Option IngestError
  receive chunk = validate_ingest_batch received server (map parse chunk)

  length-parsed : (chunk : List A) → length (map parse chunk) ≡ length chunk
  length-parsed [] = refl
  length-parsed (row ∷ chunk) = omega (arith, length-parsed chunk)

  sum-parsed :
      (chunk : List A)
      → sum (map received.record_bytes (map parse chunk))
        ≤ sum (map sent.record_bytes chunk) + length chunk * extra
  sum-parsed [] = omega arith
  sum-parsed (row ∷ chunk) = omega (arith, sum-parsed chunk, parse_lem row)

  small-parsed :
      (chunk : List A)
      → worker.max_bytes + extra ≤ server.max_bytes
      → any (is_oversized sent worker) chunk ≡ false
      → any (is_oversized received server) (map parse chunk) ≡ false
  unfolding is_oversized
  small-parsed [] room small = refl
  small-parsed (row ∷ chunk) room small = ground (arith, parse_lem row, small-parsed chunk room)

  receive_accepted :
      (chunk : List A)
      → worker.max_rows ≤ server.max_rows
      → worker.max_bytes + worker.max_rows * extra ≤ server.max_bytes
      → 1 ≤ worker.max_rows
      → validate_ingest_batch sent worker chunk ≡ none
      → receive chunk ≡ none
  unfolding validate_ingest_batch receive
  receive_accepted chunk rows bytes positive h =
      let few : length chunk ≤ worker.max_rows = ground arith in
      let small : any (is_oversized sent worker) chunk ≡ false = ground arith in
      let whole : sent.list_bytes chunk ≤ worker.max_bytes = ground arith in
      let one = mul-le-mul_right extra positive in
      let each = mul-le-mul_right extra few in
      let same = length-parsed chunk in
      let none_large = small-parsed chunk (omega (arith, one, bytes)) small in
      let sums = sum-parsed chunk in
      let measured = sent.list_bytes_lem chunk in
      let measured' = received.list_bytes_lem (map parse chunk) in
      let fits : received.list_bytes (map parse chunk) ≤ server.max_bytes =
        omega (arith, whole, each, sums, measured, measured', same, bytes) in
      ground arith

  All-receive :
      (chunks : List (List A))
      → worker.max_rows ≤ server.max_rows
      → worker.max_bytes + worker.max_rows * extra ≤ server.max_bytes
      → 1 ≤ worker.max_rows
      → All (IsAccepted sent worker) chunks
      → All (λ chunk. receive chunk ≡ none) chunks
  All-receive [] rows bytes positive h = tt
  All-receive (chunk ∷ chunks) rows bytes positive h =
      (receive_accepted chunk rows bytes positive h.0, All-receive chunks rows bytes positive h.1)

  -- If a chunk may hold a row at all, and the server allows as many rows as the worker, and more bytes by
  -- what parsing may add to each of them, the server accepts every chunk that is yielded.
  pub iter_ingest_chunks-receive :
      (rows : List A)
      → 1 ≤ worker.max_rows
      → worker.max_rows ≤ server.max_rows
      → worker.max_bytes + worker.max_rows * extra ≤ server.max_bytes
      → All (λ chunk. receive chunk ≡ none) (iter_ingest_chunks sent worker rows).chunks
  iter_ingest_chunks-receive rows positive few room =
      All-receive (iter_ingest_chunks sent worker rows).chunks few room positive
        (iter_ingest_chunks-IsAccepted sent worker rows positive)
