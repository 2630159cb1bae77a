-- ===== src/Ingest/Spool/Capacity.antt =====
-- The bytes on disk and the cap of the spool.
use nuclei_dashboard.Base.{List, [], arith, ℕ, ◌++◌, ◌+◌, ◌∷◌, ◌≡◌, ◌≤◌}
use nuclei_dashboard.Ingest.{Encoder, Limits}
use nuclei_dashboard.Ingest.Spool.{
  File, JobSpool, Kind, append, append_each, atomic_write, coverage, devices, disk_bytes, done,
  findings, mark_pipeline_complete, ready, seal, seal_all, then_do-keeps, total_bytes, without_done,
  ◌then_do◌,
}

module _ {A M : Type 0} (encoder : Encoder A) (limits : Limits) (meta_bytes : M → ℕ) where
  total_bytes-append :
      (xs ys : List (File A M))
      → total_bytes encoder limits meta_bytes (xs ++ ys)
        ≡ total_bytes encoder limits meta_bytes xs + total_bytes encoder limits meta_bytes ys
  total_bytes-append [] ys = omega arith
  total_bytes-append (x ∷ xs) ys = omega (arith, total_bytes-append xs ys)

  total_bytes-without_done :
      (files : List (File A M))
      → total_bytes encoder limits meta_bytes (without_done files)
        ≤ total_bytes encoder limits meta_bytes files
  total_bytes-without_done [] = omega arith
  total_bytes-without_done (ready k n rows ∷ files) = omega (arith, total_bytes-without_done files)
  total_bytes-without_done (done meta ∷ files) = omega (arith, total_bytes-without_done files)

  -- What the cap promises.
  pub record IsWithinCap (s : JobSpool A M) : Type 0 where
    pub within : disk_bytes encoder limits meta_bytes s ≤ s.max_bytes

  atomic_write-IsWithinCap :
      (file : File A M) (s : JobSpool A M)
      → IsWithinCap s
      → IsWithinCap (atomic_write encoder limits meta_bytes file s).0
  unfolding atomic_write
  atomic_write-IsWithinCap (ready k n rows) s h = record {
    within = ground (arith, h.within, total_bytes-append s.files (ready k n rows ∷ []));
  }
  atomic_write-IsWithinCap (done meta) s h = record {
    within = ground (
      arith,
      h.within,
      total_bytes-without_done s.files,
      total_bytes-append (without_done s.files) (done meta ∷ []),
    );
  }

  seal-IsWithinCap :
      (k : Kind) (s : JobSpool A M)
      → IsWithinCap s
      → IsWithinCap (seal encoder limits meta_bytes k s).0
  unfolding seal
  seal-IsWithinCap k s h = record {
    within =
        ground (
          arith,
          h.within,
          total_bytes-append s.files (ready k (s.seq k + 1) (s.open_rows k) ∷ []),
        );
  }

  -- Whatever is appended, and whether `append` returns or raises, the files stay within the cap.
  append-IsWithinCap :
      (k : Kind) (row : A) (s : JobSpool A M)
      → IsWithinCap s
      → IsWithinCap (append encoder limits meta_bytes k row s).0
  unfolding append
  append-IsWithinCap k row s h = record {
    within = unfold disk_bytes in ground (arith, h.within, (seal-IsWithinCap k s h).within);
  }

  append_each-IsWithinCap :
      (k : Kind) (rows : List A) (s : JobSpool A M)
      → IsWithinCap s
      → IsWithinCap (append_each encoder limits meta_bytes k rows s).0
  unfolding append_each
  append_each-IsWithinCap k [] s h = h
  append_each-IsWithinCap k (row ∷ rows) s h =
      then_do-keeps IsWithinCap (append encoder limits meta_bytes k row s)
        (append_each encoder limits meta_bytes k rows) (append-IsWithinCap k row s h)
        (append_each-IsWithinCap k rows)

  seal_all-IsWithinCap :
      (s : JobSpool A M) → IsWithinCap s → IsWithinCap (seal_all encoder limits meta_bytes s).0
  unfolding seal_all
  seal_all-IsWithinCap s h =
      then_do-keeps IsWithinCap
        (seal encoder limits meta_bytes devices s then_do seal encoder limits meta_bytes findings)
        (seal encoder limits meta_bytes coverage)
        (then_do-keeps IsWithinCap (seal encoder limits meta_bytes devices s)
          (seal encoder limits meta_bytes findings) (seal-IsWithinCap devices s h)
          (seal-IsWithinCap findings))
        (seal-IsWithinCap coverage)

  mark_pipeline_complete-IsWithinCap :
      (meta : M) (s : JobSpool A M)
      → IsWithinCap s
      → IsWithinCap (mark_pipeline_complete encoder limits meta_bytes meta s).0
  unfolding mark_pipeline_complete
  mark_pipeline_complete-IsWithinCap meta s h =
      then_do-keeps IsWithinCap (seal_all encoder limits meta_bytes s)
        (atomic_write encoder limits meta_bytes (done meta)) (seal_all-IsWithinCap s h)
        (atomic_write-IsWithinCap (done meta))

  -- Spooling any rows and then completing the pipeline never leaves more bytes on disk than the
  -- cap, whether the calls return or raise.
  pub spool_within_cap :
      (k : Kind) (rows : List A) (meta : M) (s : JobSpool A M)
      → disk_bytes encoder limits meta_bytes s ≤ s.max_bytes
      → let t = (append_each encoder limits meta_bytes k rows s).0 in
        let u = (mark_pipeline_complete encoder limits meta_bytes meta t).0 in
        (disk_bytes encoder limits meta_bytes t ≤ t.max_bytes)
        × (disk_bytes encoder limits meta_bytes u ≤ u.max_bytes)
  spool_within_cap k rows meta s h =
      let t = (append_each encoder limits meta_bytes k rows s).0 in
      let kept = append_each-IsWithinCap k rows s (record { within = h }) in
      (kept.within, (mark_pipeline_complete-IsWithinCap meta t kept).within)
