-- ===== src/Todos/ItemsLaws.antt =====
-- src/core/todo/todo-manager.ts: when updateItem comes through.
use Prim.Native.Nat.{zero}
use open_supervisor.Todos.Register.{update-compare_and_set}
use open_supervisor.Todos.Text.{marker_of, mark_items, Text}
use open_supervisor.Todos.FilesLaws.{read_with_version-version, version_of, Works, Reads}
use open_supervisor.Todos.Files.{
  conflict, Updated, read_with_version, thrown, success, update, Disk, run, Io,
}
use open_supervisor.Todos.Items.{max_rounds, update_item, Round, edit_from}
use open_supervisor.Prelude.{
  ℕ_discrete, none, ◌⊎◌, Bool, Option, inr, sym, refl, ◌∙◌, inl, Bool-cases, arith, ◌==◌, true, ap,
  some, suc, [], ◌≢◌, ◌+◌, ◌≡◌, ◌<◌, ◌≤◌, String, ℕ,
}

-- The file operations of a round work.
pub record RoundWorks (r : Round) : Type 0 where
  pub read : Reads r.read
  pub update : Works (r.io 0)

update-success :
    (io : ℕ → Io) (expected : ℕ) (updater : Text → Text) (author : String) (d : Disk)
    → Works (io 0)
    → version_of d ≡ expected
    → (update io expected updater author d).1 ≡ success (suc (version_of d))
update-success io expected updater author d h e =
    let same : (version_of d == expected) ≡ true = ground (arith, e) in
    ap (λ q. q.1) (update-compare_and_set io expected updater author d h) ∙ rw same refl

update-not_thrown :
    (io : ℕ → Io) (expected : ℕ) (updater : Text → Text) (author : String) (d : Disk)
    → Works (io 0)
    → (update io expected updater author d).1 ≢ thrown
update-not_thrown io expected updater author d h q =
    let e = ap (λ q. q.1) (update-compare_and_set io expected updater author d h) in
    elim (Bool-cases (version_of d == expected)) [
      | inl same ↦ cc (sym q ∙ rw same at e)
      | inr other ↦ cc (sym q ∙ rw other at e)
    ]

settled :
    (rounds : ℕ → Round) (updater : Text → Text) (author : String) (left n k : ℕ) (d : Disk)
    → ((m : ℕ) → RoundWorks (rounds m))
    → n ≤ k
    → k < n + left
    → (rounds k).others ≡ []
    → (edit_from rounds updater author left n d).1 ≡ some true
unfolding edit_from run
settled rounds updater author zero n k d h le lt q = absurd (omega arith)
settled rounds updater author (suc left) n k d h le lt q = elim (ℕ_discrete n k) [
  | yes same ↦
      let quiet : ready ≡ d = ap (λ cs. (run cs d).0) (ap (λ m. (rounds m).others) same ∙ q) in
      let e : version_of ready ≡ expected =
        ap version_of quiet ∙ sym (read_with_version-version (rounds n).read d (h n).read) in
      by_result r.1
        (inl (
          suc (version_of ready),
          update-success (rounds n).io expected updater author ready (h n).update e,
        ))
        refl
  | no apart ↦
      by_result r.1
        (inr (settled rounds updater author left (suc n) k r.0 h (omega arith) (omega arith) q))
        refl
]
  where
    expected : ℕ
    expected = (read_with_version (rounds n).read d).version.version

    ready : Disk
    ready = (run (rounds n).others d).0

    r : Disk × Updated
    r = update (rounds n).io expected updater author ready

    rest : Disk × Option Bool
    rest = edit_from rounds updater author left (suc n) r.0

    by_result :
        (u : Updated)
        → ((v : ℕ) × (r.1 ≡ success v)) ⊎ (rest.1 ≡ some true)
        → r.1 ≡ u
        → (elim u as (λ o. Disk × Option Bool) [
          | success v ↦ (r.0, some true)
          | conflict v ↦ rest
          | thrown ↦ (r.0, none)
        ]).1
          ≡ some true
    by_result (success v) h e = refl
    by_result (conflict v) (inl (w, h)) e = cc (sym h ∙ e)
    by_result (conflict v) (inr h) e = h
    by_result thrown c e =
        absurd (update-not_thrown (rounds n).io expected updater author ready (h n).update e)

-- When the file operations work and in one of the five rounds no other update comes in between, updateItem
-- returns true, whatever happens in the other rounds.
pub update_item-quiet :
    (rounds : ℕ → Round) (search : Text) (status author : String) (d : Disk) (k : ℕ)
    → ((m : ℕ) → RoundWorks (rounds m))
    → k < max_rounds
    → (rounds k).others ≡ []
    → (update_item rounds search status author d).1 ≡ some true
unfolding update_item
update_item-quiet rounds search status author d k h lt q =
    settled rounds (mark_items search (marker_of status)) author max_rounds 0 k d h (omega arith) lt
      q
