-- ===== src/Ingest/Complete.antt =====
-- `iter_ingest_chunks` neither loses, repeats nor reorders a record, and fails only at a record that
-- fits in no list.
use mathlib.Core.List.{append_assoc}
use nuclei_dashboard.Base.{
  Bool-cases, List, [], any, arith, concat, false, if◌then◌else◌, inl, inr, none, refl, some, true,
  ℕ, ◌++◌, ◌∷◌, ◌≡◌,
}
use nuclei_dashboard.Ingest.{
  Encoder, Limits, chunk_loop, is_oversized, iter_ingest_chunks, record_too_large,
}

module _ {A : Type 0} (encoder : Encoder A) (limits : Limits) where
  open encoder use {record_bytes}

  chunk_loop-concat :
      (chunk : List A) (item_sizes : List ℕ) (rows : List A)
      → any (is_oversized encoder limits) rows ≡ false
      → (concat (chunk_loop encoder limits chunk item_sizes rows).chunks ≡ chunk ++ rows)
        × ((chunk_loop encoder limits chunk item_sizes rows).failure ≡ none)
  unfolding chunk_loop
  chunk_loop-concat [] item_sizes [] h = (refl, refl)
  chunk_loop-concat (x ∷ xs) item_sizes [] h = (refl, refl)
  chunk_loop-concat chunk item_sizes (row ∷ rows) h =
      let size = record_bytes row in
      ground (
        arith,
        append_assoc chunk (row ∷ []) rows,
        chunk_loop-concat (row ∷ []) (size ∷ []) rows,
        chunk_loop-concat (chunk ++ row ∷ []) (item_sizes ++ size ∷ []) rows,
      )

  chunk_loop-failure :
      (chunk : List A) (item_sizes : List ℕ) (rows : List A)
      → any (is_oversized encoder limits) rows ≡ true
      → (chunk_loop encoder limits chunk item_sizes rows).failure ≡ some record_too_large
  unfolding chunk_loop
  chunk_loop-failure chunk item_sizes [] h = cc
  chunk_loop-failure chunk item_sizes (row ∷ rows) h =
      let size = record_bytes row in
      ground (
        arith,
        chunk_loop-failure (row ∷ []) (size ∷ []) rows,
        chunk_loop-failure (chunk ++ row ∷ []) (item_sizes ++ size ∷ []) rows,
      )

  -- Where no record is too large for a list of its own, slicing ends without a failure, and the
  -- chunks joined in order are the records that were given.
  pub iter_ingest_chunks-concat :
      (rows : List A)
      → any (is_oversized encoder limits) rows ≡ false
      → (concat (iter_ingest_chunks encoder limits rows).chunks ≡ rows)
        × ((iter_ingest_chunks encoder limits rows).failure ≡ none)
  unfolding iter_ingest_chunks
  iter_ingest_chunks-concat rows h = chunk_loop-concat [] [] rows h

  -- Slicing fails exactly when some record is too large for a list of its own.
  pub failure-iter_ingest_chunks :
      (rows : List A)
      → (iter_ingest_chunks encoder limits rows).failure
        ≡ (if any (is_oversized encoder limits) rows then some record_too_large else none)
  unfolding iter_ingest_chunks
  failure-iter_ingest_chunks rows = elim (Bool-cases (any (is_oversized encoder limits) rows)) [
    | inl large ↦ rw large (chunk_loop-failure [] [] rows large)
    | inr small ↦ rw small ((chunk_loop-concat [] [] rows small).1)
  ]
