-- ===== src/Ingest/Spool.antt =====
-- The worker's bounded disk spool of one job: scan_runtime/spool.py. A directory is the list of its
-- sealed files in the order of their making; the steps of an atomic write (temporary file, fsync,
-- rename) are one step here, and the sizes of written texts are the parameters' `json.dumps`.
-- A method returns the spool as it stands when it returns or raises, with the exception raised.
pub mod Records
pub mod Capacity
pub mod Recovery
pub mod Refinement
use nuclei_dashboard.Base.{
  Bool, List, Option, [], any, concat, false, if◌then◌else◌, ltb, none, refl, some, true, ℕ, ◌++◌,
  ◌+◌, ◌∷◌, ◌≡◌,
}
use nuclei_dashboard.Ingest.{Encoder, Limits, is_nonempty, is_oversized, must_flush}

pub data Kind : Type 0 where
  devices findings coverage : Kind

infix 50 ◌is◌
abbrev pub ◌is◌ : Kind → Kind → Bool
devices is devices = true
findings is findings = true
coverage is coverage = true
_ is _ = false

pub data SpoolError : Type 0 where
  cap_exceeded ingest_limit : SpoolError

-- `{kind}-{seq}.ready` with its rows, or `pipeline.done` with its meta data.
pub data File (A M : Type 0) : Type 0 where
  ready : Kind → ℕ → List A → File A M
  done : M → File A M

pub record JobSpool (A M : Type 0) : Type 0 where
  pub max_bytes : ℕ
  pub files : List (File A M)
  pub open_rows : Kind → List A
  pub sizes : Kind → List ℕ
  pub seq : Kind → ℕ

abbrev set_kind {ℓ} : {V : Type ℓ} → (Kind → V) → Kind → V → Kind → V
set_kind f k v j = if j is k then v else f j

-- The next exception-raising step runs only if none was raised.
infixl 5 ◌then_do◌
abbrev pub ◌then_do◌ {ℓ} :
    {S : Type ℓ} → S × Option SpoolError → (S → S × Option SpoolError) → S × Option SpoolError
(s, none) then_do next = next s
(s, some e) then_do next = (s, some e)

abbrev pub is_done : {A M : Type 0} → File A M → Bool
is_done (ready k n rows) = false
is_done (done meta) = true

-- The rows of the `.ready` files of a kind, file by file.
abbrev pub ready_files : {A M : Type 0} → Kind → List (File A M) → List (List A)
ready_files k [] = []
ready_files k (ready j n rows ∷ files) =
    let rest = ready_files k files in if j is k then rows ∷ rest else rest
ready_files k (done meta ∷ files) = ready_files k files

abbrev pub without_done : {A M : Type 0} → List (File A M) → List (File A M)
without_done [] = []
without_done (ready k n rows ∷ files) = ready k n rows ∷ without_done files
without_done (done meta ∷ files) = without_done files

module _ {A M : Type 0} where
  unfoldable pub ready_chunks : Kind → JobSpool A M → List (List A)
  ready_chunks k s = ready_files k s.files

  unfoldable pub pipeline_complete : JobSpool A M → Bool
  pipeline_complete s = any is_done s.files

  -- The records of a kind, sealed or not, as `iter_records` reads them back.
  unfoldable pub iter_records : Kind → JobSpool A M → List A
  unfolding ready_chunks
  iter_records k s = concat (ready_chunks k s) ++ s.open_rows k

module _ {A M : Type 0} (encoder : Encoder A) (limits : Limits) (meta_bytes : M → ℕ) where
  abbrev file_bytes : File A M → ℕ
  file_bytes (ready k n rows) = encoder.list_bytes rows
  file_bytes (done meta) = meta_bytes meta

  abbrev pub total_bytes : List (File A M) → ℕ
  total_bytes [] = 0
  total_bytes (file ∷ files) = file_bytes file + total_bytes files

  unfoldable pub disk_bytes : JobSpool A M → ℕ
  disk_bytes s = total_bytes s.files

  -- A file that is there under the same name is replaced; only `pipeline.done` is written twice.
  abbrev replace : File A M → List (File A M) → List (File A M)
  replace (ready k n rows) files = files ++ ready k n rows ∷ []
  replace (done meta) files = without_done files ++ done meta ∷ []

  unfoldable pub atomic_write : File A M → JobSpool A M → JobSpool A M × Option SpoolError
  unfolding disk_bytes
  atomic_write file s =
      if ltb s.max_bytes (disk_bytes s + file_bytes file)
      then (s, some cap_exceeded)
      else (record s { files = replace file s.files }, none)

  abbrev clear_open : Kind → JobSpool A M → JobSpool A M × Option SpoolError
  clear_open k s =
      (record s { open_rows = set_kind s.open_rows k []; sizes = set_kind s.sizes k [] }, none)

  -- The sequence number is taken before the write, and stays taken if the write is refused.
  unfoldable pub seal : Kind → JobSpool A M → JobSpool A M × Option SpoolError
  unfolding atomic_write
  seal k s =
      let n = s.seq k + 1 in
      let numbered = record s { seq = set_kind s.seq k n } in
      if is_nonempty (s.open_rows k)
      then atomic_write (ready k n (s.open_rows k)) numbered then_do clear_open k
      else (s, none)

  abbrev pub push_row : Kind → A → JobSpool A M → JobSpool A M × Option SpoolError
  push_row k row s = (
    record s {
      open_rows = set_kind s.open_rows k (s.open_rows k ++ row ∷ []);
      sizes = set_kind s.sizes k (s.sizes k ++ encoder.record_bytes row ∷ []);
    },
    none,
  )

  unfoldable pub append : Kind → A → JobSpool A M → JobSpool A M × Option SpoolError
  append k row s =
      if is_oversized encoder limits row
      then (s, some ingest_limit)
      else if must_flush encoder limits (s.open_rows k) (s.sizes k) (encoder.record_bytes row)
      then seal k s then_do push_row k row
      else push_row k row s

  unfoldable pub seal_all : JobSpool A M → JobSpool A M × Option SpoolError
  seal_all s = seal devices s then_do seal findings then_do seal coverage

  unfoldable pub mark_pipeline_complete : M → JobSpool A M → JobSpool A M × Option SpoolError
  mark_pipeline_complete meta s = seal_all s then_do atomic_write (done meta)

  -- Rows of one kind spooled one after the other, up to the first exception.
  unfoldable pub append_each : Kind → List A → JobSpool A M → JobSpool A M × Option SpoolError
  append_each k [] s = (s, none)
  append_each k (row ∷ rows) s = append k row s then_do append_each k rows

-- What every step keeps, a sequence of steps keeps.
pub then_do-keeps {ℓ κ} :
    {S : Type ℓ} (P : S → Type κ) (first : S × Option SpoolError) (next : S → S × Option SpoolError)
    → P first.0
    → ((t : S) → P t → P (next t).0)
    → P (first then_do next).0
then_do-keeps P (s, none) next h step = step s h
then_do-keeps P (s, some e) next h step = h

-- A sequence that did not raise, step by step.
pub then_do-eq {ℓ} :
    {S : Type ℓ} (first : S × Option SpoolError) (next : S → S × Option SpoolError) {t : S}
    → (first then_do next) ≡ (t, none)
    → (u : S) × (first ≡ (u, none)) × (next u ≡ (t, none))
then_do-eq (s, none) next h = (s, refl, h)
then_do-eq (s, some e) next h = cc
