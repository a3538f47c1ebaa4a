-- ===== src/Store/File.antt =====
-- internal/store/file_store.go: FileStore, which appends a batch as a line to the file of its day.
pub mod Appended
mod Tests
use docker_monitor.Model.{Errors, LogBatch, Time}
use docker_monitor.Prelude.{Option, [], if◌then◌else◌, none, some, ◌++◌, ◌==◌, ◌∷◌}
use docker_monitor.Prelude.Assoc.{Assoc, insert, lookup}
use docker_monitor.Prelude.Bytes.{Bytes, text}
use docker_monitor.Store.DingTalk.Text.{is_health_batch}

-- What the store takes from the Go library: the layouts "2006-01" and "2006-01-02" of a time in UTC,
-- filepath.Join, and json.Encoder.Encode with its newline.
pub record FileFormats : Type 0 where
  pub month : Time → Bytes
  pub date : Time → Bytes
  pub join_path : Bytes → Bytes → Bytes
  pub encode : LogBatch → Bytes

-- How far a call gets: an error of MkdirAll, of OpenFile, of Encode after some bytes, of Sync, of Close, or
-- none.
pub data Progress : Type 0 where
  mkdir_failed : Bytes → Progress
  open_failed : Bytes → Progress
  encode_failed : Bytes → Bytes → Progress
  sync_failed : Bytes → Progress
  close_failed : Bytes → Progress
  appended : Progress

-- The contents of files, by path.
abbrev pub Files : Type 0
Files = Assoc Bytes

abbrev pub or_missing : Option Bytes → Bytes
or_missing none = []
or_missing (some s) = s

unfoldable pub content : Bytes → Files → Bytes
unfolding lookup
content path files = or_missing (lookup path files)

module _ (go : FileFormats) (base_dir : Bytes) where
  -- fileStoreName
  unfoldable pub file_store_name : LogBatch → Time → Bytes
  unfolding is_health_batch
  file_store_name batch ts =
      if is_health_batch batch
      then go.date ts ++ text ".health.jsonl"
      else go.date ts ++ text ".jsonl"

  -- The path of a batch; `now` is read where it has no time.
  unfoldable pub target : LogBatch → Time → Bytes
  unfolding file_store_name
  target batch now =
      let ts = if batch.last_seen == 0 then now else batch.last_seen in
      go.join_path (go.join_path base_dir (go.month ts)) (file_store_name batch ts)

  abbrev pub write_to_file : Bytes → Bytes → Files → Files
  write_to_file path bytes files = insert path (content path files ++ bytes) files

  -- AppendBatch of FileStore
  unfoldable pub append_to_file : Progress → LogBatch → Time → Files → Errors × Files
  unfolding target content insert
  append_to_file (mkdir_failed e) batch now files = ((text "create output dir: " ++ e) ∷ [], files)
  append_to_file (open_failed e) batch now files = ((text "open output file: " ++ e) ∷ [], files)
  append_to_file (encode_failed part e) batch now files =
      ((text "encode batch: " ++ e) ∷ [], write_to_file (target batch now) part files)
  append_to_file (sync_failed e) batch now files = (
    (text "sync output file: " ++ e) ∷ [],
    write_to_file (target batch now) (go.encode batch) files,
  )
  append_to_file (close_failed e) batch now files = (
    (text "close output file: " ++ e) ∷ [],
    write_to_file (target batch now) (go.encode batch) files,
  )
  append_to_file appended batch now files =
      ([], write_to_file (target batch now) (go.encode batch) files)
