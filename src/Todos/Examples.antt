-- ===== src/Todos/Examples.antt =====
-- The theorems about src/core/todo/todo-manager.ts at concrete inputs, and tests.
use open_supervisor.Todos.Again.{split-insert_sub_task}
use open_supervisor.Recovery.Regex.{units}
use open_supervisor.Todos.Faults.{update_item-erases, Unreadable}
use open_supervisor.Todos.ItemsLaws.{update_item-quiet, RoundWorks}
use open_supervisor.Todos.Items.{Round, update_item}
use open_supervisor.Todos.Register.{run-register_run, register_run, register_of}
use open_supervisor.Todos.FilesLaws.{update-Outcome, Reads, Works, Outcome}
use open_supervisor.Todos.Files.{
  conflict, success, update, written, run, holds, VersionFile, Call, Disk, Io,
}
use open_supervisor.Todos.Text.{
  replace_box, box, marker_of, has_box, includes, inserted, join, insert_sub_task, Text, mark_items,
  split,
}
use open_supervisor.Prelude.{arith, ◌≡◌, ◌∷◌, if◌then◌else◌, false, some, refl, ltb, true, [], ℕ}

-- Two tasks, the second one below the first.
abbrev todos : Text
todos = units "- [ ] build\n  - [ ] test"

mark_test :
    mark_items (units "test") (marker_of "completed") todos ≡ units "- [ ] build\n  - [x] test"
unfolding mark_items split join includes has_box replace_box
mark_test = refl

insert_test :
    insert_sub_task (units "build") (units "lint") todos
    ≡ units "- [ ] build\n  - [ ] lint\n  - [ ] test"
unfolding insert_sub_task inserted split join includes
insert_test = refl

split-insert_sub_task_example :
    split (insert_sub_task (units "test") (units "lint") todos)
    ≡ units "- [ ] build" ∷ units "  - [ ] test" ∷ units "    - [ ] lint" ∷ []
unfolding split includes
split-insert_sub_task_example =
    split-insert_sub_task (units "test") (units "lint") todos (units "- [ ] build" ∷ [])
      (units "  - [ ] test") [] refl refl refl refl

abbrev fine : Io
fine = record {
  content_read = true;
  version_read = true;
  tmp_written = true;
  version_write = written;
  renamed = true;
  now = 1000;
}

abbrev at_version : ℕ → VersionFile
at_version n = holds (record { version = n; timestamp = 900; author = "planner" })

abbrev disk : Disk
disk = record { todo = some todos; version_file = at_version 4 }

-- The temporary file is not written at first.
abbrev shaky : ℕ → Io
shaky n = record fine { tmp_written = ltb 0 n }

shaky-Reads : (k : ℕ) → Reads (shaky k)
shaky-Reads k = record { content = refl; version = refl }

update-Outcome_example :
    Outcome 4
      (mark_items (units "test") (box 120))
      disk
      (update shaky 4 (mark_items (units "test") (box 120)) "worker" disk)
update-Outcome_example =
    update-Outcome shaky 4 (mark_items (units "test") (box 120)) "worker" disk shaky-Reads

fine-Works : Works fine
fine-Works = record {
  reads = record { content = refl; version = refl };
  tmp = refl;
  version = refl;
  renamed = refl;
}

abbrev call : ℕ → Call
call n = record {
  io = λ m. fine;
  expected = n;
  updater = mark_items (units "test") (box 120);
  author = "worker";
}

run-register_run_example :
    (
      register_of (run (call 4 ∷ call 4 ∷ call 5 ∷ []) disk).0,
      (run (call 4 ∷ call 4 ∷ call 5 ∷ []) disk).1,
    )
    ≡ register_run (call 4 ∷ call 4 ∷ call 5 ∷ []) (register_of disk)
run-register_run_example =
    run-register_run (call 4 ∷ call 4 ∷ call 5 ∷ []) disk
      (fine-Works, (fine-Works, (fine-Works, tt)))

register_test :
    (register_run (call 4 ∷ call 4 ∷ call 5 ∷ []) (register_of disk)).1
    ≡ success 5 ∷ conflict 5 ∷ success 6 ∷ []
unfolding register_run mark_items split join includes has_box replace_box
register_test = refl

-- Another update comes in between in the first round.
abbrev rounds : ℕ → Round
rounds n = record { read = fine; others = if ltb 0 n then [] else call 4 ∷ []; io = λ m. fine }

rounds-RoundWorks : (m : ℕ) → RoundWorks (rounds m)
rounds-RoundWorks m = record {
  read = record { content = refl; version = refl };
  update = fine-Works;
}

update_item-quiet_example :
    (update_item rounds (units "test") "failed" "reviewer" disk).1 ≡ some true
update_item-quiet_example =
    update_item-quiet rounds (units "test") "failed" "reviewer" disk 1 rounds-RoundWorks
      (omega arith) refl

abbrev blind : Io
blind = record fine { content_read = false }

abbrev blind_rounds : ℕ → Round
blind_rounds n = record { read = blind; others = []; io = λ m. blind }

blind-Unreadable : Unreadable blind
blind-Unreadable = record { content = refl; tmp = refl; version = refl; renamed = refl }

update_item-erases_example :
    let r = update_item blind_rounds (units "test") "completed" "worker" disk in
    (r.0.todo ≡ some []) × (r.1 ≡ some true)
update_item-erases_example =
    update_item-erases blind_rounds (units "test") "completed" "worker" todos (at_version 4)
      blind-Unreadable blind-Unreadable refl

abbrev unrenamed : ℕ → Io
unrenamed n = record fine { renamed = ltb 0 n }
