-- ===== src/Ingest/Bounds.antt =====
-- Every chunk that `iter_ingest_chunks` yields passes `validate_ingest_batch` by the sizes and limits that it
-- was sliced by.
use nuclei_dashboard.Base.{
  All, Bool-cases, List, [], any, any-append, arith, false, inl, inr, length, length-append, map,
  none, refl, sum, sum-append, true, ℕ, ◌++◌, ◌+◌, ◌∷◌, ◌≡◌, ◌≤◌,
}
use nuclei_dashboard.Ingest.{
  Encoder, Limits, chunk_loop, is_nonempty, is_oversized, iter_ingest_chunks, must_flush,
  validate_ingest_batch,
}

module _ {A : Type 0} (encoder : Encoder A) (limits : Limits) where
  open encoder use {record_bytes, list_bytes, list_bytes_lem}
  open limits use {max_rows, max_bytes}

  -- The open chunk between two rounds of the loop, with the sizes kept beside it.
  pub record IsOpen (chunk : List A) (item_sizes : List ℕ) : Type 0 where
    sizes_known : sum item_sizes ≡ sum (map record_bytes chunk)
    few_rows : length chunk ≤ max_rows
    fits : is_nonempty chunk ≡ true → list_bytes chunk ≤ max_bytes
    none_oversized : any (is_oversized encoder limits) chunk ≡ false

  IsOpen-nil : IsOpen [] []
  IsOpen-nil = ground arith

  IsOpen-one :
      (row : A)
      → 1 ≤ max_rows
      → is_oversized encoder limits row ≡ false
      → IsOpen (row ∷ []) (record_bytes row ∷ [])
  unfolding is_oversized
  IsOpen-one row positive fits = ground (arith, list_bytes_lem (row ∷ []))

  sum-map-snoc :
      (chunk : List A) (row : A)
      → sum (map record_bytes (chunk ++ row ∷ [])) ≡ sum (map record_bytes chunk) + record_bytes row
  sum-map-snoc [] row = omega arith
  sum-map-snoc (x ∷ xs) row = omega (arith, sum-map-snoc xs row)

  IsOpen-snoc :
      (chunk : List A) (item_sizes : List ℕ) (row : A)
      → 1 ≤ max_rows
      → IsOpen chunk item_sizes
      → is_oversized encoder limits row ≡ false
      → must_flush encoder limits chunk item_sizes (record_bytes row) ≡ false
      → IsOpen (chunk ++ row ∷ []) (item_sizes ++ record_bytes row ∷ [])
  unfolding must_flush
  IsOpen-snoc [] item_sizes row positive h small stay = ground (
    arith,
    IsOpen-one row positive small,
    sum-append item_sizes (record_bytes row ∷ []),
    list_bytes_lem (row ∷ []),
  )
  IsOpen-snoc (x ∷ xs) item_sizes row positive h small stay = ground (
    arith,
    sum-append item_sizes (record_bytes row ∷ []),
    sum-map-snoc xs row,
    length-append xs (row ∷ []),
    any-append (is_oversized encoder limits) xs (row ∷ []),
    list_bytes_lem (x ∷ (xs ++ row ∷ [])),
  )

  IsOpen-accepted :
      (chunk : List A) (item_sizes : List ℕ)
      → is_nonempty chunk ≡ true
      → IsOpen chunk item_sizes
      → validate_ingest_batch encoder limits chunk ≡ none
  unfolding validate_ingest_batch
  IsOpen-accepted chunk item_sizes some_row h = ground arith

  -- An empty chunk is never yielded.
  pub must_flush-is_nonempty :
      (chunk : List A) (item_sizes : List ℕ) (size : ℕ)
      → must_flush encoder limits chunk item_sizes size ≡ true
      → is_nonempty chunk ≡ true
  unfolding must_flush
  must_flush-is_nonempty chunk item_sizes size h = ground arith

  abbrev pub IsAccepted : List A → Type 0
  IsAccepted chunk = validate_ingest_batch encoder limits chunk ≡ none

  chunk_loop-IsAccepted :
      (chunk : List A) (item_sizes : List ℕ) (rows : List A)
      → 1 ≤ max_rows
      → IsOpen chunk item_sizes
      → All IsAccepted (chunk_loop encoder limits chunk item_sizes rows).chunks
  unfolding chunk_loop
  chunk_loop-IsAccepted [] item_sizes [] positive h = tt
  chunk_loop-IsAccepted (x ∷ xs) item_sizes [] positive h =
      (IsOpen-accepted (x ∷ xs) item_sizes refl h, tt)
  chunk_loop-IsAccepted chunk item_sizes (row ∷ rows) positive h =
      let size = record_bytes row in
      elim (Bool-cases (is_oversized encoder limits row)) [
        | inl large ↦ rw large tt
        | inr small ↦ elim (Bool-cases (must_flush encoder limits chunk item_sizes size)) [
          | inl flush ↦
              rw (small, flush)
                (
                  IsOpen-accepted chunk item_sizes
                      (must_flush-is_nonempty chunk item_sizes size flush) h,
                  chunk_loop-IsAccepted (row ∷ []) (size ∷ []) rows positive
                      (IsOpen-one row positive small),
                )
          | inr stay ↦
              rw (small, stay)
                (chunk_loop-IsAccepted (chunk ++ row ∷ []) (item_sizes ++ size ∷ []) rows positive
                  (IsOpen-snoc chunk item_sizes row positive h small stay))
        ]
      ]

  -- If a chunk may hold a row at all, every chunk that is yielded keeps the limits that it was sliced by:
  -- its rows are few enough, none of them is too large, and neither is the list.
  pub iter_ingest_chunks-IsAccepted :
      (rows : List A)
      → 1 ≤ max_rows
      → All IsAccepted (iter_ingest_chunks encoder limits rows).chunks
  unfolding iter_ingest_chunks
  iter_ingest_chunks-IsAccepted rows positive = chunk_loop-IsAccepted [] [] rows positive IsOpen-nil
