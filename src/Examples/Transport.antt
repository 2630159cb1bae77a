-- ===== src/Examples/Transport.antt =====
-- Chunks and spools of records whose encoded size is their own number.
use nuclei_dashboard.Ingest.Spool.Capacity.{spool_within_cap}
use nuclei_dashboard.Ingest.Spool.Records.{iter_records-seal}
use nuclei_dashboard.Ingest.Spool.Refinement.{ready_chunks-append_each}
use nuclei_dashboard.Base.{
  All, List, [], any, arith, concat, if◌then◌else◌, length, map, none, refl, some, sum, ℕ, ◌++◌,
  ◌+◌, ◌-◌, ◌∷◌, ◌≡◌, ◌≤◌,
}
use nuclei_dashboard.Ingest.{
  Encoder, Limits, is_oversized, iter_ingest_chunks, must_flush, record_too_large,
}
use nuclei_dashboard.Ingest.Received.{Parsing, iter_ingest_chunks-receive, receive}
use nuclei_dashboard.Ingest.Complete.{failure-iter_ingest_chunks, iter_ingest_chunks-concat}
use nuclei_dashboard.Ingest.Spool.Recovery.{
  Root, job_files, reclaim_foreign_jobs, recover-mark_pipeline_complete, recover_owned_spool,
}
use nuclei_dashboard.Ingest.Spool.{
  JobSpool, Kind, append, append_each, atomic_write, devices, disk_bytes, iter_records,
  mark_pipeline_complete, ready, ready_chunks, seal, seal_all, ◌is◌,
}

abbrev sized : Encoder ℕ
sized = record {
  record_bytes = λ n. n;
  list_bytes = λ rows. 2 + sum (map (λ n. n) rows) + (length rows - 1);
  list_bytes_lem = λ rows. refl;
}

abbrev small : Limits
small = record { max_rows = 2; max_bytes = 20 }

abbrev four : List ℕ
four = 5 ∷ 6 ∷ 7 ∷ 8 ∷ []

abbrev meta_size : ℕ → ℕ
meta_size n = n

abbrev empty_spool : JobSpool ℕ ℕ
empty_spool = record {
  max_bytes = 100;
  files = [];
  open_rows = λ k. [];
  sizes = λ k. [];
  seq = λ k. 0;
}

abbrev filled : JobSpool ℕ ℕ
filled = record {
  max_bytes = 100;
  files = ready devices 1 (5 ∷ 6 ∷ []) ∷ [];
  open_rows = λ k. if k is devices then 7 ∷ [] else [];
  sizes = λ k. if k is devices then 7 ∷ [] else [];
  seq = λ k. 1;
}

-- Parsing adds a default of three bytes to each record.
abbrev with_default : Parsing sized sized
with_default = record { parse = λ n. n + 3; extra = 3; parse_lem = λ n. omega arith }

abbrev roomy : Limits
roomy = record { max_rows = 2; max_bytes = 26 }

iter_ingest_chunks-receive_example :
    All
      (λ chunk. receive sized sized with_default small roomy chunk ≡ none)
      (iter_ingest_chunks sized small four).chunks
iter_ingest_chunks-receive_example =
    iter_ingest_chunks-receive sized sized with_default small roomy four (omega arith) (omega arith)
      (omega arith)

iter_ingest_chunks-concat_example :
    (concat (iter_ingest_chunks sized small four).chunks ≡ four)
    × ((iter_ingest_chunks sized small four).failure ≡ none)
unfolding is_oversized
iter_ingest_chunks-concat_example = iter_ingest_chunks-concat sized small four refl

failure-iter_ingest_chunks_example :
    (iter_ingest_chunks sized small (5 ∷ 30 ∷ [])).failure
    ≡ (if any (is_oversized sized small) (5 ∷ 30 ∷ []) then some record_too_large else none)
failure-iter_ingest_chunks_example = failure-iter_ingest_chunks sized small (5 ∷ 30 ∷ [])

iter_records-seal_example :
    iter_records devices (seal sized small meta_size devices filled).0 ≡ iter_records devices filled
iter_records-seal_example = iter_records-seal sized small meta_size devices devices filled

spool_within_cap_example :
    let t = (append_each sized small meta_size devices four empty_spool).0 in
    let u = (mark_pipeline_complete sized small meta_size 9 t).0 in
    (disk_bytes sized small meta_size t ≤ t.max_bytes)
    × (disk_bytes sized small meta_size u ≤ u.max_bytes)
unfolding disk_bytes
spool_within_cap_example =
    spool_within_cap sized small meta_size devices four 9 empty_spool (omega arith)

ready_chunks-append_each_example :
    ready_chunks devices
      (seal_all sized small meta_size
        (append_each sized small meta_size devices four empty_spool).0).0
    ≡ ready_chunks devices empty_spool ++ (iter_ingest_chunks sized small four).chunks
unfolding append_each seal append atomic_write disk_bytes is_oversized must_flush seal_all
    ready_chunks
ready_chunks-append_each_example =
    let t = (append_each sized small meta_size devices four empty_spool).0 in
    ready_chunks-append_each sized small meta_size devices four empty_spool t
      (seal sized small meta_size devices t).0 refl refl refl refl

abbrev two_jobs : Root ℕ ℕ
two_jobs = (1, filled.files) ∷ (2, []) ∷ []

-- What marking the filled spool leaves.
abbrev marked : JobSpool ℕ ℕ
unfolding mark_pipeline_complete seal_all seal atomic_write disk_bytes
marked = (mark_pipeline_complete sized small meta_size 9 filled).0

recover-mark_pipeline_complete_example :
    (u : JobSpool ℕ ℕ) × (recover_owned_spool 1 100 ((1, marked.files) ∷ [])
      ≡ (reclaim_foreign_jobs 1 ((1, marked.files) ∷ []), some u))
    × ((k : Kind) → iter_records k u ≡ iter_records k filled)
unfolding mark_pipeline_complete seal_all seal atomic_write disk_bytes job_files
recover-mark_pipeline_complete_example =
    recover-mark_pipeline_complete sized small meta_size 9 filled marked 1 100
      ((1, marked.files) ∷ []) refl refl
