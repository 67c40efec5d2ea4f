-- ===== src/Todos/Register.antt =====
-- src/core/todo/todo-manager.ts: the updates implement a register with compare-and-set.
use open_supervisor.Todos.FilesLaws.{
  read_with_version-version, read_with_version-content, Works, version_of, content_of,
}
use open_supervisor.Prelude.{
  refl, inr, ap₂, arith, ◌+◌, inl, ◌∙◌, Bool-cases, some, ap, true, ◌≡◌, suc, ◌==◌, false, [], none,
  String, if◌then◌else◌, ◌∷◌, All, Option, ℕ, List,
}
use open_supervisor.Todos.Text.{Text}
use open_supervisor.Todos.Files.{
  publish, read_with_version, attempt_on, attempt, Updated, Io, update_from, Call, TodoData, Disk,
  update, run, success, conflict,
}

-- The register that the files implement: a content and its version.
abbrev pub Register : Type 0
Register = Text × ℕ

abbrev pub compare_and_set : ℕ → (Text → Text) → Register → Register × Updated
compare_and_set expected updater (content, version) =
    if version == expected
    then ((updater content, suc version), success (suc version))
    else ((content, version), conflict version)

unfoldable pub register_run : List Call → Register → Register × List Updated
register_run [] s = (s, [])
register_run (c ∷ cs) s =
    let r = compare_and_set c.expected c.updater s in
    let rest = register_run cs r.0 in (rest.0, r.1 ∷ rest.1)

abbrev pub register_of : Disk → Register
register_of d = (content_of d, version_of d)

abbrev Sets : Disk × Option Updated → Register × Updated → Type 0
Sets r s = elim r.1 [ none ↦ false ≡ true | some u ↦ (register_of r.0, u) ≡ s ]

attempt_on-Sets :
    (current : TodoData) (io : Io) (expected : ℕ) (updater : Text → Text) (author : String)
    (d : Disk)
    → Works io
    → current.content ≡ content_of d
    → current.version.version ≡ version_of d
    → Sets
        (attempt_on current io expected updater author d)
        (compare_and_set expected updater (register_of d))
attempt_on-Sets current io expected updater author d h c v =
    elim (Bool-cases (version_of d == expected)) [
      | inl same ↦
          let next : current.version.version + 1 ≡ suc (version_of d) = omega (arith, v) in
          rw (v, same, h.tmp, publish, h.version, h.renamed)
            (ap₂ (λ x k. ((updater x, k), success k)) c next)
      | inr other ↦ rw (v, other) refl
    ]

pub update-compare_and_set :
    (io : ℕ → Io) (expected : ℕ) (updater : Text → Text) (author : String) (d : Disk)
    → Works (io 0)
    → let r = update io expected updater author d in
      (register_of r.0, r.1) ≡ compare_and_set expected updater (register_of d)
unfolding update update_from attempt
update-compare_and_set io expected updater author d h =
    by_attempt (attempt (io 0) expected updater author d) (
      attempt_on-Sets (read_with_version (io 0) d) (io 0) expected updater author d h
        (read_with_version-content (io 0) d h.reads) (read_with_version-version (io 0) d h.reads))
  where
    after : Disk × Option Updated → Disk × Updated
    after q = elim q.1 [ none ↦ update_from io expected updater author 2 1 q.0 | some u ↦ (q.0, u) ]

    by_attempt :
        (q : Disk × Option Updated)
        → Sets q (compare_and_set expected updater (register_of d))
        → (register_of (after q).0, (after q).1) ≡ compare_and_set expected updater (register_of d)
    by_attempt (d1, none) t = cc t
    by_attempt (d1, some u) t = t

-- When the file operations work, a queue of updates gives the results of a register with compare-and-set
-- in the same order, and leaves the content and the version that it leaves.
pub run-register_run :
    (cs : List Call) (d : Disk)
    → All (λ (c : Call). Works (c.io 0)) cs
    → (register_of (run cs d).0, (run cs d).1) ≡ register_run cs (register_of d)
unfolding run register_run
run-register_run [] d h = refl
run-register_run (c ∷ cs) d h =
    let one = update-compare_and_set c.io c.expected c.updater c.author d h.0 in
    let r = update c.io c.expected c.updater c.author d in
    ap (λ q. (q.0, r.1 ∷ q.1)) (run-register_run cs r.0 h.1)
    ∙ ap (λ q. ((register_run cs q.0).0, q.1 ∷ (register_run cs q.0).1)) one
