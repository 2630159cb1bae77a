-- ===== src/Ingest/Spool/Recovery.antt =====
-- What survives a restart of the worker: the spool root, its job directories, and
-- `recover_owned_spool`. A restart loses the open rows and keeps the files.
use mathlib.Core.List.{append-nil}
use nuclei_dashboard.Ingest.{Encoder, Limits}
use nuclei_dashboard.Ingest.Spool.Records.{eq_of_is, is_refl, iter_records-seal, ready_files-done}
use nuclei_dashboard.Base.{
  Bool-cases, List, Option, [], any, ap, arith, concat, false, if◌then◌else◌, inl, inr, max, none,
  refl, some, sym, true, ℕ, ◌++◌, ◌==◌, ◌∙◌, ◌∷◌, ◌≡◌,
}
use nuclei_dashboard.Ingest.Spool.{
  File, JobSpool, Kind, atomic_write, coverage, devices, done, findings, is_done, iter_records,
  mark_pipeline_complete, pipeline_complete, ready, ready_files, seal, seal_all, then_do-eq,
  without_done, ◌is◌, ◌then_do◌,
}

-- The directories `jobs/<id>` of a spool root; no two have one id.
abbrev pub Root : Type 0 → Type 0 → Type 0
Root A M = List (ℕ × List (File A M))

module _ {A M : Type 0} where
  unfoldable pub reclaim_foreign_jobs : ℕ → Root A M → Root A M
  reclaim_foreign_jobs job [] = []
  reclaim_foreign_jobs job ((id, files) ∷ dirs) =
      let rest = reclaim_foreign_jobs job dirs in if id == job then (id, files) ∷ rest else rest

  unfoldable pub abandon : ℕ → Root A M → Root A M
  abandon job [] = []
  abandon job ((id, files) ∷ dirs) =
      let rest = abandon job dirs in if id == job then rest else (id, files) ∷ rest

  -- The files of a job's directory; an absent one is made empty.
  unfoldable pub job_files : ℕ → Root A M → List (File A M)
  job_files job [] = []
  job_files job ((id, files) ∷ dirs) = if id == job then files else job_files job dirs

  -- The highest number among the sealed files of a kind.
  abbrev next_seq : List (File A M) → Kind → ℕ
  next_seq [] k = 0
  next_seq (ready j n rows ∷ files) k =
      let rest = next_seq files k in if j is k then max n rest else rest
  next_seq (done meta ∷ files) k = next_seq files k

  -- `JobSpool.for_job`: foreign directories go, and the job's spool opens on its own files.
  unfoldable for_job : ℕ → ℕ → Root A M → JobSpool A M
  for_job job max_bytes root = record {
    max_bytes = max_bytes;
    files = job_files job (reclaim_foreign_jobs job root);
    open_rows = λ k. [];
    sizes = λ k. [];
    seq = next_seq (job_files job (reclaim_foreign_jobs job root));
  }

  -- The root that is left, and the spool to resume if the pipeline had completed.
  unfoldable pub recover_owned_spool : ℕ → ℕ → Root A M → Root A M × Option (JobSpool A M)
  unfolding for_job pipeline_complete
  recover_owned_spool job max_bytes root =
      let spool = for_job job max_bytes root in
      let kept = reclaim_foreign_jobs job root in
      if pipeline_complete spool then (kept, some spool) else (abandon job kept, none)

  job_files-reclaim :
      (job : ℕ) (root : Root A M)
      → job_files job (reclaim_foreign_jobs job root) ≡ job_files job root
  unfolding job_files reclaim_foreign_jobs
  job_files-reclaim job [] = refl
  job_files-reclaim job ((id, files) ∷ dirs) = ground (arith, job_files-reclaim job dirs)

  abandon-reclaim : (job : ℕ) (root : Root A M) → abandon job (reclaim_foreign_jobs job root) ≡ []
  unfolding abandon reclaim_foreign_jobs
  abandon-reclaim job [] = refl
  abandon-reclaim job ((id, files) ∷ dirs) = ground (arith, abandon-reclaim job dirs)

  -- A restart whose pipeline had not completed keeps nothing on the disk, of its own job or of
  -- another, and resumes nothing.
  pub recover_incomplete :
      (job max_bytes : ℕ) (root : Root A M)
      → any is_done (job_files job root) ≡ false
      → recover_owned_spool job max_bytes root ≡ ([], none)
  unfolding recover_owned_spool
  recover_incomplete job max_bytes root unfinished =
      rw (job_files-reclaim job root, unfinished, abandon-reclaim job root)

  recover_complete :
      (job max_bytes : ℕ) (root : Root A M)
      → any is_done (job_files job root) ≡ true
      → recover_owned_spool job max_bytes root
        ≡ (reclaim_foreign_jobs job root, some (for_job job max_bytes root))
  unfolding recover_owned_spool
  recover_complete job max_bytes root finished = rw (job_files-reclaim job root, finished)

  for_job-iter_records :
      (k : Kind) (job max_bytes : ℕ) (root : Root A M)
      → iter_records k (for_job job max_bytes root) ≡ concat (ready_files k (job_files job root))
  unfolding for_job iter_records
  for_job-iter_records k job max_bytes root =
      rw (job_files-reclaim job root, append-nil (concat (ready_files k (job_files job root))))

  closed_records :
      (k : Kind) (s : JobSpool A M)
      → s.open_rows k ≡ []
      → concat (ready_files k s.files) ≡ iter_records k s
  unfolding iter_records
  closed_records k s closed = rw (closed, append-nil (concat (ready_files k s.files)))

module _ {A M : Type 0} (encoder : Encoder A) (limits : Limits) (meta_bytes : M → ℕ) where
  open_rows-seal :
      (j k : Kind) (s t : JobSpool A M)
      → seal encoder limits meta_bytes k s ≡ (t, none)
      → t.open_rows j ≡ (if j is k then [] else s.open_rows j)
  unfolding seal
  open_rows-seal j k s t h = elim (Bool-cases (j is k)) [
    | inl same ↦ rw (same, eq_of_is j k same) (ground (arith, is_refl k))
    | inr other ↦ rw other (ground arith)
  ]

  iter_records-seal_eq :
      (j k : Kind) (s t : JobSpool A M)
      → seal encoder limits meta_bytes k s ≡ (t, none)
      → iter_records j t ≡ iter_records j s
  iter_records-seal_eq j k s t h =
      sym (ap (λ r. iter_records j r.0) h) ∙ iter_records-seal encoder limits meta_bytes j k s

  -- Every kind is sealed.
  all_closed :
      (k : Kind) (s u v t : JobSpool A M)
      → seal encoder limits meta_bytes devices s ≡ (u, none)
      → seal encoder limits meta_bytes findings u ≡ (v, none)
      → seal encoder limits meta_bytes coverage v ≡ (t, none)
      → t.open_rows k ≡ []
  all_closed devices s u v t a b c = cc (
    open_rows-seal devices devices s u a,
    open_rows-seal devices findings u v b,
    open_rows-seal devices coverage v t c,
  )
  all_closed findings s u v t a b c =
      cc (open_rows-seal findings findings u v b, open_rows-seal findings coverage v t c)
  all_closed coverage s u v t a b c = open_rows-seal coverage coverage v t c

  seal_all_lem :
      (k : Kind) (s t : JobSpool A M)
      → seal_all encoder limits meta_bytes s ≡ (t, none)
      → (iter_records k t ≡ iter_records k s) × (t.open_rows k ≡ [])
  unfolding seal_all
  seal_all_lem k s t h =
      let seal' = seal encoder limits meta_bytes in
      let (v, before, c) = then_do-eq (seal' devices s then_do seal' findings) (seal' coverage) h in
      let (u, a, b) = then_do-eq (seal' devices s) (seal' findings) before in
      (
        iter_records-seal_eq k coverage v t c
            ∙ iter_records-seal_eq k findings u v b
            ∙ iter_records-seal_eq k devices s u a,
        all_closed k s u v t a b c,
      )

  is_done-write :
      (meta : M) (files : List (File A M))
      → any is_done (without_done files ++ done meta ∷ []) ≡ true
  is_done-write meta [] = refl
  is_done-write meta (ready k n rows ∷ files) = is_done-write meta files
  is_done-write meta (done old ∷ files) = is_done-write meta files

  atomic_write-done :
      (meta : M) (s t : JobSpool A M)
      → atomic_write encoder limits meta_bytes (done meta) s ≡ (t, none)
      → t.files ≡ without_done s.files ++ done meta ∷ []
  unfolding atomic_write
  atomic_write-done meta s t h = ground arith

  -- A pipeline that was marked complete survives a restart whole: if the job's directory holds the
  -- files that marking left, recovery resumes a spool from which every kind reads back all its
  -- records, those that were still open before marking among them.
  pub recover-mark_pipeline_complete :
      (meta : M) (s t : JobSpool A M) (job max_bytes : ℕ) (root : Root A M)
      → mark_pipeline_complete encoder limits meta_bytes meta s ≡ (t, none)
      → job_files job root ≡ t.files
      → (u : JobSpool A M) × (recover_owned_spool job max_bytes root
          ≡ (reclaim_foreign_jobs job root, some u))
        × ((k : Kind) → iter_records k u ≡ iter_records k s)
  unfolding mark_pipeline_complete
  recover-mark_pipeline_complete meta s t job max_bytes root marked same =
      let (v, sealed, written) =
        then_do-eq (seal_all encoder limits meta_bytes s)
          (atomic_write encoder limits meta_bytes (done meta)) marked in
      let files = same ∙ atomic_write-done meta v t written in
      (
        for_job job max_bytes root,
        recover_complete job max_bytes root (rw files (is_done-write meta v.files)),
        λ k.
            for_job-iter_records k job max_bytes root
            ∙ ap (λ fs. concat (ready_files k fs)) files
            ∙ ap concat (ready_files-done k meta v.files)
            ∙ closed_records k v (seal_all_lem k s v sealed).1
            ∙ (seal_all_lem k s v sealed).0,
      )
