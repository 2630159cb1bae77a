-- ===== src/Ingest/Spool/Records.antt =====
-- No record of the spool is lost, repeated or reordered, and the sealed chunks are those of
-- `iter_ingest_chunks`.
use mathlib.Core.List.{append_assoc}
use mathlib.Core.List.{append-nil}
use nuclei_dashboard.Base.{
  Bool-cases, List, [], arith, concat, concat-append, false, if◌then◌else◌, inl, inr, is_some, not,
  refl, sym, true, ℕ, ◌&&◌, ◌++◌, ◌+◌, ◌∷◌, ◌≡◌,
}
use nuclei_dashboard.Ingest.{Encoder, Limits}
use nuclei_dashboard.Ingest.Spool.{
  File, JobSpool, Kind, append, coverage, devices, done, findings, iter_records, push_row, ready,
  ready_files, seal, without_done, ◌is◌,
}

pub is_refl : (k : Kind) → (k is k) ≡ true
is_refl devices = refl
is_refl findings = refl
is_refl coverage = refl

is_comm : (j k : Kind) → (j is k) ≡ (k is j)
is_comm devices devices = refl
is_comm devices findings = refl
is_comm devices coverage = refl
is_comm findings devices = refl
is_comm findings findings = refl
is_comm findings coverage = refl
is_comm coverage devices = refl
is_comm coverage findings = refl
is_comm coverage coverage = refl

pub eq_of_is : (j k : Kind) → (j is k) ≡ true → j ≡ k
eq_of_is devices devices h = refl
eq_of_is findings findings h = refl
eq_of_is coverage coverage h = refl
eq_of_is devices findings h = cc
eq_of_is devices coverage h = cc
eq_of_is findings devices h = cc
eq_of_is findings coverage h = cc
eq_of_is coverage devices h = cc
eq_of_is coverage findings h = cc

module _ {A M : Type 0} where
  pub ready_files-snoc :
      (j k : Kind) (n : ℕ) (rows : List A) (files : List (File A M))
      → ready_files j (files ++ ready k n rows ∷ [])
        ≡ ready_files j files ++ (if k is j then rows ∷ [] else [])
  ready_files-snoc j k n rows [] = refl
  ready_files-snoc j k n rows (ready i m more ∷ files) =
      ground (arith, ready_files-snoc j k n rows files)
  ready_files-snoc j k n rows (done meta ∷ files) = ready_files-snoc j k n rows files

  pub ready_files-done :
      (j : Kind) (meta : M) (files : List (File A M))
      → ready_files j (without_done files ++ done meta ∷ []) ≡ ready_files j files
  ready_files-done j meta [] = refl
  ready_files-done j meta (ready i m more ∷ files) = ground (arith, ready_files-done j meta files)
  ready_files-done j meta (done old ∷ files) = ready_files-done j meta files

module _ {A M : Type 0} (encoder : Encoder A) (limits : Limits) (meta_bytes : M → ℕ) where
  iter_records-seal_self :
      (k : Kind) (s : JobSpool A M)
      → iter_records k (seal encoder limits meta_bytes k s).0 ≡ iter_records k s
  unfolding seal iter_records
  iter_records-seal_self k s =
      let rows = s.open_rows k in
      ground (
        arith,
        is_refl k,
        ready_files-snoc k k (s.seq k + 1) rows s.files,
        concat-append (ready_files k s.files) (rows ∷ []),
        append-nil rows,
        append-nil (concat (ready_files k s.files) ++ rows),
      )

  iter_records-seal_ne :
      (j k : Kind) (s : JobSpool A M)
      → (j is k) ≡ false
      → iter_records j (seal encoder limits meta_bytes k s).0 ≡ iter_records j s
  unfolding seal iter_records
  iter_records-seal_ne j k s other =
      let rows = s.open_rows k in
      ground (
        arith,
        is_comm j k,
        ready_files-snoc j k (s.seq k + 1) rows s.files,
        append-nil (ready_files j s.files),
      )

  -- Sealing changes where a record lies, not the records: whether it returns or raises, every kind
  -- reads back as before.
  pub iter_records-seal :
      (j k : Kind) (s : JobSpool A M)
      → iter_records j (seal encoder limits meta_bytes k s).0 ≡ iter_records j s
  iter_records-seal j k s = elim (Bool-cases (j is k)) [
    | inl same ↦ rw (eq_of_is j k same) (iter_records-seal_self k s)
    | inr other ↦ iter_records-seal_ne j k s other
  ]

  iter_records-push_row :
      (j k : Kind) (row : A) (s : JobSpool A M)
      → iter_records j (push_row encoder limits meta_bytes k row s).0
        ≡ (if j is k then iter_records k s ++ row ∷ [] else iter_records j s)
  unfolding iter_records
  iter_records-push_row j k row s = elim (Bool-cases (j is k)) [
    | inl same ↦
        rw (eq_of_is j k same, is_refl k)
          (sym (append_assoc (concat (ready_files k s.files)) (s.open_rows k) (row ∷ [])))
    | inr other ↦ rw other
  ]

  -- What `append` leaves to be read back: the record behind the others of its kind if it returned,
  -- nothing new if it raised, and the same as before for every other kind.
  pub iter_records-append :
      (j k : Kind) (row : A) (s : JobSpool A M)
      → let (t, raised) = append encoder limits meta_bytes k row s in
        iter_records j t ≡ (
          if j is k && not (is_some raised) then iter_records k s ++ row ∷ [] else iter_records j s)
  unfolding append
  iter_records-append j k row s = ground (
    arith,
    iter_records-push_row j k row s,
    iter_records-seal j k s,
    iter_records-seal k k s,
    iter_records-push_row j k row (seal encoder limits meta_bytes k s).0,
  )
