-- ===== src/Todos/Files.antt =====
-- src/core/todo/todo-manager.ts: readWithVersion and update on the two files. What each file operation does
-- is an argument. The updates of a process run one after the other, in the order of their calls: a run is
-- a list of updates. Other processes do not write the files while an update runs.
use Prim.Native.Nat.{zero}
use open_supervisor.Todos.Text.{Text}
use open_supervisor.Prelude.{
  ◌+◌, ◌==◌, suc, [], some, ◌∷◌, String, if◌then◌else◌, Bool, none, Option, List, ℕ,
}

pub record TodoVersion : Type 0 where
  pub version : ℕ
  pub timestamp : ℕ
  pub author : String

pub record TodoData : Type 0 where
  pub content : Text
  pub version : TodoVersion

pub data VersionFile : Type 0 where
  missing : VersionFile
  -- it is not JSON
  garbled : VersionFile
  holds : TodoVersion → VersionFile

pub record Disk : Type 0 where
  pub todo : Option Text
  pub version_file : VersionFile

-- Writing the version file fails before it changes the file, or leaves a part of the text in it.
pub data VersionWrite : Type 0 where
  written : VersionWrite
  untouched : VersionWrite
  cut_off : VersionWrite

-- What the file operations of an attempt do, and its time.
pub record Io : Type 0 where
  pub content_read : Bool
  pub version_read : Bool
  pub tmp_written : Bool
  pub version_write : VersionWrite
  pub renamed : Bool
  pub now : ℕ

abbrev pub system_version : ℕ → TodoVersion
system_version now = record { version = 0; timestamp = now; author = "system" }

-- The version file as it is read.
abbrev pub version_in : Io → VersionFile → TodoVersion
version_in io missing = system_version io.now
version_in io garbled = system_version io.now
version_in io (holds v) = if io.version_read then v else system_version io.now

unfoldable pub read_with_version : Io → Disk → TodoData
read_with_version io d = elim d.todo [
  | none ↦ record { content = []; version = version_in io d.version_file }
  | some content ↦
      if io.content_read
      then record { content = content; version = version_in io d.version_file }
      else record { content = []; version = system_version io.now }
]

pub data Updated : Type 0 where
  success : ℕ → Updated
  conflict : ℕ → Updated
  thrown : Updated

-- What is left of an attempt once the new content stands in the temporary file; `none` when it throws.
abbrev pub publish : Io → ℕ → Text → String → Disk → Disk × Option Updated
publish io v content author d = elim io.version_write [
  | untouched ↦ (d, none)
  | cut_off ↦ (record d { version_file = garbled }, none)
  | written ↦
      let file : VersionFile =
        holds (record { version = v; timestamp = io.now; author = author }) in
      if io.renamed
      then (record { todo = some content; version_file = file }, some (success v))
      else (record d { version_file = file }, none)
]

-- A round of the loop of _internalUpdate, on what it has read.
abbrev pub attempt_on : TodoData → Io → ℕ → (Text → Text) → String → Disk → Disk × Option Updated
attempt_on current io expected updater author d =
    if current.version.version == expected
    then if io.tmp_written
      then publish io (current.version.version + 1) (updater current.content) author d
      else (d, none)
    else (d, some (conflict current.version.version))

unfoldable pub attempt : Io → ℕ → (Text → Text) → String → Disk → Disk × Option Updated
attempt io expected updater author d =
    attempt_on (read_with_version io d) io expected updater author d

abbrev pub max_retries : ℕ
max_retries = 3

-- The loop with `left` rounds left, at the round `n`.
unfoldable pub update_from : (ℕ → Io) → ℕ → (Text → Text) → String → ℕ → ℕ → Disk → Disk × Updated
update_from io expected updater author zero n d = (d, thrown)
update_from io expected updater author (suc left) n d =
    let r = attempt (io n) expected updater author d in
    let rest = update_from io expected updater author left (suc n) r.0 in
    elim r.1 [ none ↦ rest | some u ↦ (r.0, u) ]

unfoldable pub update : (ℕ → Io) → ℕ → (Text → Text) → String → Disk → Disk × Updated
update io expected updater author d = update_from io expected updater author max_retries 0 d

-- A call of update, with what its file operations do.
pub record Call : Type 0 where
  pub io : ℕ → Io
  pub expected : ℕ
  pub updater : Text → Text
  pub author : String

-- The queue of the mutex.
unfoldable pub run : List Call → Disk → Disk × List Updated
run [] d = (d, [])
run (c ∷ cs) d =
    let r = update c.io c.expected c.updater c.author d in
    let rest = run cs r.0 in (rest.0, r.1 ∷ rest.1)
