-- ===== src/Todos/Faults.antt =====
-- src/core/todo/todo-manager.ts: what a failed read or a failed rename does.
use open_supervisor.Todos.FilesLaws.{read_with_version-version, version_of, Reads}
use open_supervisor.Prelude.{
  ◌+◌, arith, ◌==◌, ◌∙◌, List, refl, inr, ap, ap₂, inl, suc, none, Bool, Bool-cases, Option, true,
  [], some, String, false, ℕ, ◌≡◌,
}
use open_supervisor.Todos.Items.{Round, edit_from, update_item}
use open_supervisor.Todos.Text.{includes, marker_of, has_box, Text, split, mark_items}
use open_supervisor.Todos.Files.{
  publish, Call, attempt_on, TodoData, Updated, holds, system_version, Disk, VersionFile, run,
  attempt, update, read_with_version, Io, thrown, success, conflict, written, update_from,
}

-- How a failed round reads: the content of the file cannot be read, and everything else works.
pub record Unreadable (io : Io) : Type 0 where
  pub content : io.content_read ≡ false
  pub tmp : io.tmp_written ≡ true
  pub version : io.version_write ≡ written
  pub renamed : io.renamed ≡ true

Unreadable-version :
    (io : Io) (c : Text) (f : VersionFile)
    → Unreadable io
    → read_with_version io (record { todo = some c; version_file = f })
      ≡ record { content = []; version = system_version io.now }
unfolding read_with_version
Unreadable-version io c f h = rw h.content refl

erased : Io → (Text → Text) → String → Disk
erased io updater author = record {
  todo = some (updater []);
  version_file = holds (record { version = 1; timestamp = io.now; author = author });
}

update-Unreadable :
    (io : ℕ → Io) (updater : Text → Text) (author : String) (c : Text) (f : VersionFile)
    → Unreadable (io 0)
    → update io 0 updater author (record { todo = some c; version_file = f })
      ≡ (erased (io 0) updater author, success 1)
unfolding update update_from attempt erased
update-Unreadable io updater author c f h =
    let e : attempt_on (record { content = []; version = system_version (io 0).now }) (io 0) 0
          updater author d
        ≡ (erased (io 0) updater author, some (success 1)) =
      rw (h.tmp, publish, h.version, h.renamed) refl in
    ap after (
      ap (λ current. attempt_on current (io 0) 0 updater author d) (Unreadable-version (io 0) c f h)
      ∙ e)
  where
    d : Disk
    d = record { todo = some c; version_file = f }

    after : Disk × Option Updated → Disk × Updated
    after q = elim q.1 [ none ↦ update_from io 0 updater author 2 1 q.0 | some u ↦ (q.0, u) ]

nothing_marked : (search marker : Text) → mark_items search marker [] ≡ []
unfolding mark_items split has_box
nothing_marked search marker = elim (Bool-cases (includes search [])) [
  | inl hit ↦ rw hit refl
  | inr miss ↦ rw miss refl
]

-- When the file with the todos is there but cannot be read, updateItem takes it for an empty file of
-- version 0, replaces it by an empty one, and returns true.
pub update_item-erases :
    (rounds : ℕ → Round) (search : Text) (status author : String) (content : Text) (f : VersionFile)
    → Unreadable (rounds 0).read
    → Unreadable ((rounds 0).io 0)
    → (rounds 0).others ≡ []
    → let r =
        update_item rounds search status author
          (record { todo = some content; version_file = f }) in
      (r.0.todo ≡ some []) × (r.1 ≡ some true)
unfolding update_item edit_from run erased
update_item-erases rounds search status author content f h k q =
    let e =
      ap₂
        (λ (current : TodoData) (cs : List Call).
          after (update io current.version.version updater author (run cs d).0))
        (Unreadable-version (rounds 0).read content f h) q
      ∙ ap after (update-Unreadable io updater author content f k) in
    (ap (λ r. r.0.todo) e ∙ ap some (nothing_marked search (marker_of status)), ap (λ r. r.1) e)
  where
    d : Disk
    d = record { todo = some content; version_file = f }

    io : ℕ → Io
    io = (rounds 0).io

    updater : Text → Text
    updater = mark_items search (marker_of status)

    after : Disk × Updated → Disk × Option Bool
    after r = elim r.1 [
      | success v ↦ (r.0, some true)
      | conflict v ↦ edit_from rounds updater author 4 1 r.0
      | thrown ↦ (r.0, none)
    ]

bumped : Io → ℕ → String → Disk → Disk
bumped io expected author d = record d {
  version_file = holds (record { version = suc expected; timestamp = io.now; author = author });
}

half_done :
    (current : TodoData) (io : Io) (expected : ℕ) (updater : Text → Text) (author : String)
    (d : Disk)
    → io.tmp_written ≡ true
    → io.version_write ≡ written
    → io.renamed ≡ false
    → current.version.version ≡ expected
    → attempt_on current io expected updater author d ≡ (bumped io expected author d, none)
unfolding bumped
half_done current io expected updater author d t w n v =
    let same : (current.version.version == expected) ≡ true = ground (arith, v) in
    let next : current.version.version + 1 ≡ suc expected = omega (arith, v) in
    rw (same, t, publish, w, n) (ap with_version next)
  where
    with_version : ℕ → Disk × Option Updated
    with_version k = (
      record d {
        version_file = holds (record { version = k; timestamp = io.now; author = author });
      },
      none,
    )

overtaken :
    (current : TodoData) (io : Io) (expected : ℕ) (updater : Text → Text) (author : String)
    (d : Disk)
    → current.version.version ≡ suc expected
    → attempt_on current io expected updater author d ≡ (d, some (conflict (suc expected)))
overtaken current io expected updater author d v =
    let apart : (suc expected == expected) ≡ false = ground arith in rw (v, apart) refl

-- When the new content cannot be renamed into place after the version was written, the update finds its
-- own version in the next round and reports a conflict, with the old content in the file.
pub rename_fails_conflicts :
    (io : ℕ → Io) (expected : ℕ) (updater : Text → Text) (author : String) (d : Disk)
    → Reads (io 0)
    → (io 0).tmp_written ≡ true
    → (io 0).version_write ≡ written
    → (io 0).renamed ≡ false
    → Reads (io 1)
    → version_of d ≡ expected
    → let r = update io expected updater author d in
      (r.0.todo ≡ d.todo) × (version_of r.0 ≡ suc expected) × (r.1 ≡ conflict (suc expected))
unfolding update update_from attempt bumped
rename_fails_conflicts io expected updater author d h t w n k e =
    let v = read_with_version-version (io 0) d h ∙ e in
    let one = half_done (read_with_version (io 0) d) (io 0) expected updater author d t w n v in
    let u = read_with_version-version (io 1) d1 k in
    let two = overtaken (read_with_version (io 1) d1) (io 1) expected updater author d1 u in
    let q : update io expected updater author d ≡ (d1, conflict (suc expected)) =
      ap (λ r. on_two r (attempt (io 1) expected updater author r.0)) one
      ∙ ap (on_two (d1, none)) two in
    (ap (λ r. r.0.todo) q, ap (λ r. version_of r.0) q, ap (λ r. r.1) q)
  where
    d1 : Disk
    d1 = bumped (io 0) expected author d

    on_two : Disk × Option Updated → Disk × Option Updated → Disk × Updated
    on_two r s = elim r.1 [
      | some u ↦ (r.0, u)
      | none ↦ elim s.1 [
        | some u ↦ (s.0, u)
        | none ↦ update_from io expected updater author 1 2 s.0
      ]
    ]
