-- ===== src/Store/File/Appended.antt =====
-- internal/store/file_store.go: the files after calls of AppendBatch.
use mathlib.Core.List.{append-nil, append_assoc}
use docker_monitor.Model.{LogBatch, Time}
use docker_monitor.Prelude.{
  Bool, Bool-cases, List, [], ap, arith, false, if◌then◌else◌, inl, inr, length, refl, suc, sym,
  take, true, zero, ◌++◌, ◌==◌, ◌∙◌, ◌∷◌, ◌≡◌,
}
use docker_monitor.Prelude.Assoc.Laws.{lookup-insert}
use docker_monitor.Prelude.Bytes.{Bytes, has_prefix, str_eq, str_eq_iff, text}
use docker_monitor.Prelude.Bytes.Space.{trim_space}
use docker_monitor.Store.DingTalk.Text.{is_health_batch}
use docker_monitor.Store.File.{
  FileFormats, Files, Progress, append_to_file, appended, close_failed, content, encode_failed,
  file_store_name, mkdir_failed, open_failed, sync_failed, target, write_to_file,
}

-- A call with how far it gets, and the clock that it may read.
pub record FileCall : Type 0 where
  pub progress : Progress
  pub batch : LogBatch
  pub now : Time

-- The time whose day the file has: the last one of the batch, the clock's where the batch has none.
abbrev pub day_time : Time → Time → Time
day_time zero now = now
day_time (suc t) now = suc t

-- The ending of the file's name, by what the log id begins with, white space aside.
abbrev pub ending : Bytes → Bytes
ending log_id =
    if str_eq (take 15 (trim_space log_id)) (text "monitor.health.")
    then text ".health.jsonl"
    else text ".jsonl"

has_prefix-take : (s p : Bytes) → has_prefix s p ≡ str_eq (take (length p) s) p
unfolding has_prefix str_eq
has_prefix-take [] [] = refl
has_prefix-take (c ∷ s) [] = refl
has_prefix-take [] (d ∷ p) = refl
has_prefix-take (c ∷ s) (d ∷ p) = rw (has_prefix-take s p) refl

day_time-eq : (t now : Time) → (if t == 0 then now else t) ≡ day_time t now
day_time-eq zero now = refl
day_time-eq (suc t) now = let later : (suc t == 0) ≡ false = ground arith in rw later refl

module _ (go : FileFormats) (base_dir : Bytes) where
  -- BASE/MONTH/DATE with the ending, of a batch that is appended at `now`.
  abbrev pub day_path : LogBatch → Time → Bytes
  day_path b now =
      let ts = day_time b.last_seen now in
      go.join_path (go.join_path base_dir (go.month ts)) (go.date ts ++ ending b.log_id)

  file_store_name-ending :
      (b : LogBatch) (t : Time) → file_store_name go base_dir b t ≡ go.date t ++ ending b.log_id
  unfolding file_store_name is_health_batch
  file_store_name-ending b t =
      ground (arith, has_prefix-take (trim_space b.log_id) (text "monitor.health."))

  target-day_path : (b : LogBatch) (now : Time) → target go base_dir b now ≡ day_path b now
  unfolding target
  target-day_path b now =
      let ts = if b.last_seen == 0 then now else b.last_seen in
      ap (λ name. go.join_path (go.join_path base_dir (go.month ts)) name)
        (file_store_name-ending b ts)
      ∙ ap (λ t. go.join_path (go.join_path base_dir (go.month t)) (go.date t ++ ending b.log_id))
          (day_time-eq b.last_seen now)

  pub append_calls : List FileCall → Files → Files
  append_calls [] files = files
  append_calls (c ∷ calls) files =
      append_calls calls (append_to_file go base_dir c.progress c.batch c.now files).1

  -- What a call writes.
  abbrev written : Progress → LogBatch → Bytes
  written (mkdir_failed e) batch = []
  written (open_failed e) batch = []
  written (encode_failed part e) batch = part
  written progress batch = go.encode batch

  -- What the calls write to a path, one after the other.
  abbrev pub written_to : Bytes → List FileCall → Bytes
  written_to path [] = []
  written_to path (c ∷ calls) =
      (if str_eq (day_path c.batch c.now) path then written c.progress c.batch else [])
      ++ written_to path calls

  nothing_written : (here : Bool) (s : Bytes) → s ≡ s ++ (if here then [] else [])
  nothing_written true s = sym (append-nil s)
  nothing_written false s = sym (append-nil s)

  content-write :
      (path bytes other : Bytes) (files : Files)
      → content other (write_to_file go base_dir path bytes files)
        ≡ content other files ++ (if str_eq path other then bytes else [])
  unfolding content
  content-write path bytes other files = elim (Bool-cases (str_eq path other)) [
    | inl same ↦
        let one_path : path ≡ other = (str_eq_iff path other).0 same in
        let looked = lookup-insert path other (content path files ++ bytes) files in
        rw (looked, same) (ap (λ p. content p files ++ bytes) one_path)
    | inr apart ↦
        let looked = lookup-insert path other (content path files ++ bytes) files in
        rw (looked, apart) (sym (append-nil (content other files)))
  ]

  content-append :
      (progress : Progress) (b : LogBatch) (t : Time) (path : Bytes) (files : Files)
      → content path (append_to_file go base_dir progress b t files).1
        ≡ content path files
          ++ (if str_eq (target go base_dir b t) path then written progress b else [])
  unfolding append_to_file
  content-append (mkdir_failed e) b t path files =
      nothing_written (str_eq (target go base_dir b t) path) (content path files)
  content-append (open_failed e) b t path files =
      nothing_written (str_eq (target go base_dir b t) path) (content path files)
  content-append (encode_failed part e) b t path files =
      content-write (target go base_dir b t) part path files
  content-append (sync_failed e) b t path files =
      content-write (target go base_dir b t) (go.encode b) path files
  content-append (close_failed e) b t path files =
      content-write (target go base_dir b t) (go.encode b) path files
  content-append appended b t path files =
      content-write (target go base_dir b t) (go.encode b) path files

  -- After any calls a file holds what it held before and then, in the order of the calls, for each batch
  -- whose file this is its whole line, but nothing where its directory could not be made or the file
  -- not be opened, and a part where writing failed. The file of a batch is the one of the month and the
  -- date of its last time, or of the clock where it has none, with the ending for health reports
  -- exactly where its log id, without surrounding white space, begins with "monitor.health.".
  pub append_calls-content :
      (calls : List FileCall) (path : Bytes) (files : Files)
      → content path (append_calls calls files) ≡ content path files ++ written_to path calls
  unfolding append_calls
  append_calls-content [] path files = sym (append-nil (content path files))
  append_calls-content (c ∷ calls) path files =
      append_calls-content calls path (append_to_file go base_dir c.progress c.batch c.now files).1
      ∙ ap (λ s. s ++ written_to path calls)
          (content-append c.progress c.batch c.now path files
            ∙ ap
                (λ p.
                  content path files ++ (if str_eq p path then written c.progress c.batch else []))
                (target-day_path c.batch c.now))
      ∙ append_assoc (content path files) _ (written_to path calls)
