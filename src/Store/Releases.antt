-- ===== src/Store/Releases.antt =====
-- The table `project_releases` and `save_release_batch` (crates/ditch_store/src/tasks.rs).
use ditch.Prelude.{
  ◌+◌, ◌%◌, u64_mod, ◌==◌, Bool, true, not, ◌&&◌, ◌||◌, Option, none, some, List, [], ◌∷◌, any,
  find, is_empty, ltb, byte_len, trim, Text, text, text_eq, Result, ok, err, ◌>>=◌, ◌>>◌, reject_if,
}
use ditch.Core.{ProjectId, ProjectRelease, Task, TaskAudit, Uuid}
use ditch.Store.{
  Store, Disk, Receipt, commit, database_error, write_task, write_audit, write_receipt,
}

-- The keys of the table: the identity, and the name in a project.
abbrev pub same_release : ProjectRelease → ProjectRelease → Bool
same_release r q = q.id == r.id || (q.project_id == r.project_id && text_eq q.name r.name)

unfoldable pub insert_release : Option ProjectRelease → Store → Result Text Store
insert_release none s = ok s
insert_release (some r) s = do
  reject_if (not (text_eq (trim r.name) r.name) || is_empty r.name || ltb 128 (byte_len r.name))
      (text "Invalid release name")
  reject_if (any (same_release r) s.releases || not (any (λ p. p == r.project_id) s.projects))
      database_error
  ok (record s { releases = r ∷ s.releases })

abbrev pub belongs : Option Uuid → ProjectId → List ProjectRelease → Bool
belongs none project releases = true
belongs (some id) project releases =
    any (λ (r : ProjectRelease). r.id == id && r.project_id == project) releases

abbrev pub stored_task : Option Task → Result Text Task
stored_task none = err database_error
stored_task (some t) = ok t

-- A row of the batch: the stored revision is the one before, and the release is of the project.
unfoldable pub write_released : Task → TaskAudit → Store → Result Text Store
write_released t a s = do
  old ← stored_task (find (λ (u : Task). u.id == t.id && u.project_id == t.project_id) s.tasks)
  reject_if (not ((old.revision + 1) % u64_mod == t.revision))
      (text "Task revision changed; refresh and retry")
  reject_if (not (belongs t.release_id t.project_id s.releases))
      (text "Release belongs to another project")
  s1 ← write_task t s
  write_audit a s1

unfoldable pub write_batch : List (Task × TaskAudit) → Store → Result Text Store
write_batch [] s = ok s
write_batch ((t, a) ∷ changes) s = do s1 ← write_released t a s; write_batch changes s1

-- `save_release_batch`.
unfoldable pub save_release_batch :
    Disk → Option ProjectRelease → List (Task × TaskAudit) → Receipt → Store → Result Text Store
save_release_batch disk release changes receipt s = do
  s1 ← insert_release release s
  s2 ← write_batch changes s1
  s3 ← write_receipt receipt s2
  commit disk
  ok s3
