-- ===== src/Todos/FilesLaws.antt =====
-- src/core/todo/todo-manager.ts: update as an atomic compare-and-set, and what failing file operations do.
use Prim.Native.Nat.{zero}
use open_supervisor.Todos.Text.{Text}
use open_supervisor.Todos.Files.{
  max_retries, update, cut_off, untouched, VersionWrite, publish, attempt, attempt_on, TodoData,
  update_from, thrown, success, conflict, conflict, garbled, written, success, missing, version_in,
  Updated, holds, Disk, read_with_version, VersionFile, Io,
}
use open_supervisor.Prelude.{
  ◌∙◌, inr, inl, ◌==◌, Bool-cases, false, arith, ◌+◌, if◌then◌else◌, ap, Bool, String, refl, suc,
  some, [], Option, true, ◌≡◌, none, ℕ,
}

pub record Reads (io : Io) : Type 0 where
  pub content : io.content_read ≡ true
  pub version : io.version_read ≡ true

pub record Works (io : Io) : Type 0 where
  pub reads : Reads io
  pub tmp : io.tmp_written ≡ true
  pub version : io.version_write ≡ written
  pub renamed : io.renamed ≡ true

-- The content and the version that the files stand for.
abbrev pub content_of : Disk → Text
content_of d = elim d.todo [ none ↦ [] | some content ↦ content ]

abbrev pub number_in : VersionFile → ℕ
number_in missing = 0
number_in garbled = 0
number_in (holds v) = v.version

abbrev pub version_of : Disk → ℕ
version_of d = number_in d.version_file

version_in-number : (io : Io) (f : VersionFile) → Reads io → (version_in io f).version ≡ number_in f
version_in-number io missing h = refl
version_in-number io garbled h = refl
version_in-number io (holds v) h = rw h.version refl

pub read_with_version-content :
    (io : Io) (d : Disk) → Reads io → (read_with_version io d).content ≡ content_of d
unfolding read_with_version
read_with_version-content io d h = by_todo d.todo d.version_file
  where
    by_todo :
        (t : Option Text) (f : VersionFile)
        → (read_with_version io (record { todo = t; version_file = f })).content
          ≡ content_of (record { todo = t; version_file = f })
    by_todo none f = refl
    by_todo (some c) f = rw h.content refl

pub read_with_version-version :
    (io : Io) (d : Disk) → Reads io → (read_with_version io d).version.version ≡ version_of d
unfolding read_with_version
read_with_version-version io d h = by_todo d.todo d.version_file
  where
    by_todo :
        (t : Option Text) (f : VersionFile)
        → (read_with_version io (record { todo = t; version_file = f })).version.version
          ≡ number_in f
    by_todo none f = version_in-number io f h
    by_todo (some c) f = rw h.content (version_in-number io f h)

-- What an update did: it wrote the new content over the content of the version it expected, or it left the
-- content as it was.
abbrev pub Outcome : ℕ → (Text → Text) → Disk → Disk × Updated → Type 0
Outcome expected updater d r = elim r.1 [
  | success v ↦
      (version_of d ≡ expected)
      × (v ≡ suc expected)
      × (r.0.todo ≡ some (updater (content_of d)))
      × (version_of r.0 ≡ suc expected)
  | conflict v ↦ r.0.todo ≡ d.todo
  | thrown ↦ r.0.todo ≡ d.todo
]

abbrev Tried : ℕ → (Text → Text) → Disk → Disk × Option Updated → Type 0
Tried expected updater d r = elim r.1 [
  | none ↦ (version_of d ≡ expected) × (r.0.todo ≡ d.todo)
  | some u ↦ Outcome expected updater d (r.0, u)
]

publish-Tried :
    (io : Io) (expected v : ℕ) (content : Text) (updater : Text → Text) (author : String) (d : Disk)
    → version_of d ≡ expected
    → v ≡ suc expected
    → content ≡ updater (content_of d)
    → Tried expected updater d (publish io v content author d)
publish-Tried io expected v content updater author d e n c =
    by_write io.version_write io.renamed refl refl
  where
    by_write :
        (w : VersionWrite) (b : Bool)
        → io.version_write ≡ w
        → io.renamed ≡ b
        → Tried expected updater d (publish io v content author d)
    by_write untouched b q k = rw (q, publish) (e, refl)
    by_write cut_off b q k = rw (q, publish) (e, refl)
    by_write written true q k = rw (q, k, publish) (e, n, ap some c, n)
    by_write written false q k = rw (q, k, publish) (e, refl)

attempt_on-Tried :
    (current : TodoData) (io : Io) (expected : ℕ) (updater : Text → Text) (author : String)
    (d : Disk)
    → current.content ≡ content_of d
    → current.version.version ≡ version_of d
    → Tried expected updater d (attempt_on current io expected updater author d)
attempt_on-Tried current io expected updater author d c v =
    elim (Bool-cases (current.version.version == expected)) [
      | inl same ↦
          let e : version_of d ≡ expected = ground (arith, same, v) in
          rw same (by_tmp e io.tmp_written)
      | inr other ↦ rw other refl
    ]
  where
    by_tmp :
        (e : version_of d ≡ expected) (b : Bool)
        → Tried expected updater d (
            if b
            then publish io (current.version.version + 1) (updater current.content) author d
            else (d, none))
    by_tmp e true =
        publish-Tried io expected _ _ updater author d e (omega (arith, e, v)) (ap updater c)
    by_tmp e false = (e, refl)

text_in : Option Text → Text
text_in t = elim t [ none ↦ [] | some content ↦ content ]

carried :
    (expected : ℕ) (updater : Text → Text) (d d1 : Disk) (q : Disk × Updated)
    → version_of d ≡ expected
    → d1.todo ≡ d.todo
    → Outcome expected updater d1 q
    → Outcome expected updater d q
unfolding text_in
carried expected updater d d1 (d2, success v) e t h =
    (e, h.1, h.2 ∙ ap (λ o. some (updater (text_in o))) t, h.3)
carried expected updater d d1 (d2, conflict v) e t h = h ∙ t
carried expected updater d d1 (d2, thrown) e t h = h ∙ t

update_from-Outcome :
    (io : ℕ → Io) (expected : ℕ) (updater : Text → Text) (author : String) (left n : ℕ) (d : Disk)
    → ((k : ℕ) → Reads (io k))
    → Outcome expected updater d (update_from io expected updater author left n d)
unfolding update_from attempt
update_from-Outcome io expected updater author zero n d h = refl
update_from-Outcome io expected updater author (suc left) n d h =
    by_attempt r refl
      (attempt_on-Tried current (io n) expected updater author d
        (read_with_version-content (io n) d (h n)) (read_with_version-version (io n) d (h n)))
      (update_from-Outcome io expected updater author left (suc n) r.0 h)
  where
    current : TodoData
    current = read_with_version (io n) d

    r : Disk × Option Updated
    r = attempt (io n) expected updater author d

    by_attempt :
        (q : Disk × Option Updated)
        → attempt (io n) expected updater author d ≡ q
        → Tried expected updater d q
        → Outcome expected updater q.0 (update_from io expected updater author left (suc n) q.0)
        → Outcome expected updater d (elim q.1 [
          | none ↦ update_from io expected updater author left (suc n) q.0
          | some u ↦ (q.0, u)
        ])
    by_attempt (d1, some u) e t rest = t
    by_attempt (d1, none) e t rest =
        carried expected updater d d1 (update_from io expected updater author left (suc n) d1) t.0
          t.1 rest

-- If reading the files works, whatever else fails and whichever rounds are repeated: an update that
-- reports success found the version it expected, wrote what its updater makes of the content of that
-- version, and counted the version up by one; any other update left the content as it was.
pub update-Outcome :
    (io : ℕ → Io) (expected : ℕ) (updater : Text → Text) (author : String) (d : Disk)
    → ((k : ℕ) → Reads (io k))
    → Outcome expected updater d (update io expected updater author d)
unfolding update
update-Outcome io expected updater author d h =
    update_from-Outcome io expected updater author max_retries 0 d h
