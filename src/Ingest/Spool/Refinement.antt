-- ===== src/Ingest/Spool/Refinement.antt =====
-- Spooling rows one at a time makes the chunks that `iter_ingest_chunks` makes of the whole list.
use nuclei_dashboard.Ingest.Bounds.{must_flush-is_nonempty}
use mathlib.Core.List.{append-nil}
use mathlib.Core.List.{append_assoc}
use nuclei_dashboard.Base.{
  List, [], ap, arith, false, inl, inr, none, sym, true, ℕ, ◌++◌, ◌+◌, ◌∙◌, ◌∷◌, ◌≡◌, ◌⊎◌,
}
use nuclei_dashboard.Ingest.{
  Encoder, Limits, Yielded, chunk_loop, is_nonempty, is_oversized, iter_ingest_chunks, must_flush,
  yield_first,
}
use nuclei_dashboard.Ingest.Spool.{
  JobSpool, Kind, append, append_each, ready_chunks, ready_files, seal, then_do-eq,
}
use nuclei_dashboard.Ingest.Spool.Records.{is_refl, ready_files-snoc}

module _ {A M : Type 0} (encoder : Encoder A) (limits : Limits) (meta_bytes : M → ℕ) where
  open encoder use {record_bytes}

  -- What is sealed, and what sealing the rest would add.
  abbrev spooled : Kind → List A → JobSpool A M → List (List A)
  spooled k rows s =
      ready_files k s.files ++ (chunk_loop encoder limits (s.open_rows k) (s.sizes k) rows).chunks

  ready_files-seal :
      (k : Kind) (s t : JobSpool A M)
      → seal encoder limits meta_bytes k s ≡ (t, none)
      → is_nonempty (s.open_rows k) ≡ true
      → (ready_files k t.files ≡ ready_files k s.files ++ s.open_rows k ∷ [])
        × (t.open_rows k ≡ [])
        × (t.sizes k ≡ [])
  unfolding seal
  ready_files-seal k s t h some_row =
      ground (arith, is_refl k, ready_files-snoc k k (s.seq k + 1) (s.open_rows k) s.files)

  -- The two ways in which `append` returns.
  abbrev Sealed : Kind → A → JobSpool A M → JobSpool A M → Type 0
  Sealed k row s t =
      (must_flush encoder limits (s.open_rows k) (s.sizes k) (record_bytes row) ≡ true)
      × (ready_files k t.files ≡ ready_files k s.files ++ s.open_rows k ∷ [])
      × (t.open_rows k ≡ row ∷ [])
      × (t.sizes k ≡ record_bytes row ∷ [])

  abbrev Grown : Kind → A → JobSpool A M → JobSpool A M → Type 0
  Grown k row s t =
      (must_flush encoder limits (s.open_rows k) (s.sizes k) (record_bytes row) ≡ false)
      × (ready_files k t.files ≡ ready_files k s.files)
      × (t.open_rows k ≡ s.open_rows k ++ row ∷ [])
      × (t.sizes k ≡ s.sizes k ++ record_bytes row ∷ [])

  append_cases :
      (k : Kind) (row : A) (s t : JobSpool A M)
      → append encoder limits meta_bytes k row s ≡ (t, none)
      → (is_oversized encoder limits row ≡ false) × (Sealed k row s t ⊎ Grown k row s t)
  unfolding append seal
  append_cases k row s t h = ground (
    arith,
    is_refl k,
    must_flush-is_nonempty encoder limits (s.open_rows k) (s.sizes k) (record_bytes row),
    ready_files-snoc k k (s.seq k + 1) (s.open_rows k) s.files,
  )

  flushed_chunks :
      (sealed : List (List A)) (chunk : List A) (rest : Yielded A)
      → sealed ++ (yield_first encoder limits chunk rest).chunks
        ≡ (sealed ++ chunk ∷ []) ++ rest.chunks
  flushed_chunks sealed chunk rest = sym (append_assoc sealed (chunk ∷ []) rest.chunks)

  spooled-append :
      (k : Kind) (row : A) (rows : List A) (s t : JobSpool A M)
      → append encoder limits meta_bytes k row s ≡ (t, none)
      → spooled k (row ∷ rows) s ≡ spooled k rows t
  unfolding chunk_loop
  spooled-append k row rows s t h =
      let (small, how) = append_cases k row s t h in
      elim how [
        | inl (flush, files, rows', sizes') ↦
            rw (small, flush, files, rows', sizes')
              (flushed_chunks (ready_files k s.files) (s.open_rows k)
                (chunk_loop encoder limits (row ∷ []) (record_bytes row ∷ []) rows))
        | inr (stay, files, rows', sizes') ↦ rw (small, stay, files, rows', sizes')
      ]

  spooled-append_each :
      (k : Kind) (rows : List A) (s t : JobSpool A M)
      → append_each encoder limits meta_bytes k rows s ≡ (t, none)
      → spooled k rows s ≡ spooled k [] t
  unfolding append_each
  spooled-append_each k [] s t h = let e : s ≡ t = ground arith in ap (spooled k []) e
  spooled-append_each k (row ∷ rows) s t h =
      let (u, first, rest) =
        then_do-eq (append encoder limits meta_bytes k row s)
          (append_each encoder limits meta_bytes k rows) h in
      spooled-append k row rows s u first ∙ spooled-append_each k rows u t rest

  spooled-seal :
      (k : Kind) (s t : JobSpool A M)
      → seal encoder limits meta_bytes k s ≡ (t, none)
      → spooled k [] s ≡ ready_files k t.files
  unfolding seal chunk_loop
  spooled-seal k s t h = ground (
    arith,
    append-nil (ready_files k s.files),
    ready_files-snoc k k (s.seq k + 1) (s.open_rows k) s.files,
    is_refl k,
  )

  -- Rows appended one by one and then sealed: unless an exception is raised, the sealed chunks of
  -- the kind are those that were there, followed by the chunks that `iter_ingest_chunks` cuts the
  -- whole list into, if nothing of the kind was open before.
  pub ready_chunks-append_each :
      (k : Kind) (rows : List A) (s t u : JobSpool A M)
      → s.open_rows k ≡ []
      → s.sizes k ≡ []
      → append_each encoder limits meta_bytes k rows s ≡ (t, none)
      → seal encoder limits meta_bytes k t ≡ (u, none)
      → ready_chunks k u ≡ ready_chunks k s ++ (iter_ingest_chunks encoder limits rows).chunks
  unfolding ready_chunks iter_ingest_chunks
  ready_chunks-append_each k rows s t u no_row no_size appended last =
      let fresh = spooled-append_each k rows s t appended ∙ spooled-seal k t u last in
      sym (rw (no_row, no_size) at fresh)
