-- ===== src/Loop/Own/Checks.antt =====
-- The key of a loop's task while its evidence is gathered (crates/ditchd/src/acceptance_runtime.rs).
use ditch.Prelude.{
  ℕ, suc, ◌≡◌, refl, ap, subst, not, Option, none, some, List, [], ◌∷◌, ◌++◌, opt_text_eq, text_eq,
  Text, ok, err, >>=-eq-ok,
}
use ditch.Core.{AgentId, TaskId, TaskAttempt, AcceptanceCriterion, CommandCheck, WorkspaceEvidence}
use ditch.Runtime.State.{RuntimeState}
use ditch.Loop.{attempt_update}
use ditch.Loop.Submitted.{passed_ok, state_or}
use ditch.Loop.Turn.{Turn, Check, Setup, Evidence, Step, saved_or_fail, infra}
use ditch.Loop.Worker.{clear_attempt_group}
use ditch.Loop.Validators.{run_acceptance_validator, find_out, command_of}
use ditch.Loop.Cycle.{
  is_infra, is_cancelled, validate_one, validate_all, observe, confirm_workspace, gather,
  criteria_of, with_labels, validating,
}
use ditch.Loop.Own.{IsOwn, KeepsOwn, same-IsOwn, update-IsOwn}
use ditch.Loop.Own.Worker.{clear-IsOwn}

validator-IsOwn :
    (id : TaskId) (k : Check) (presets : List (Text × CommandCheck)) (after : WorkspaceEvidence)
    (criterion : AcceptanceCriterion) (s : RuntimeState)
    → ((command : CommandCheck) (u : RuntimeState) → IsOwn id u → IsOwn id (k.run command u).1)
    → IsOwn id s
    → IsOwn id (run_acceptance_validator k presets after criterion s).1
unfolding run_acceptance_validator find_out
validator-IsOwn id k presets after criterion s runs own =
    by_command (command_of presets criterion.kind)
  where
    by_command : (m : Option CommandCheck) → IsOwn id (find_out k after criterion.kind m s).1
    by_command none = own
    by_command (some command) = runs command s own

validate_one-IsOwn :
    (c : Setup) (k : Check) (after : WorkspaceEvidence) (criterion : AcceptanceCriterion)
    (a a' : TaskAttempt) (s s' : RuntimeState)
    → ((command : CommandCheck) (u : RuntimeState) → IsOwn c.id u → IsOwn c.id (k.run command u).1)
    → validate_one c k after criterion a s ≡ ok (s', a')
    → IsOwn c.id s
    → IsOwn c.id s'
unfolding validate_one
validate_one-IsOwn c k after criterion a a' s s' runs h own =
    let found = run_acceptance_validator k c.presets after criterion s in
    let next = record a { validators = a.validators ++ found.0 ∷ [] } in
    let (open_flag, k1) = passed_ok k.cancelled _ h in
    let ((s2, u2), e2, k2) =
      >>=-eq-ok (saved_or_fail (attempt_update k.outside c.id next found.1)) _ k1 in
    let (not_infra, k3) = passed_ok (is_infra found.0.status) _ k2 in
    let (not_cancelled, k4) = passed_ok (is_cancelled found.0.status) _ k3 in
    subst (IsOwn c.id) (ap (state_or s') k4) (
      update-IsOwn k.outside c.id c.id next found.1 s2 u2 e2
        (validator-IsOwn c.id k c.presets after criterion s runs own))

validate_all-IsOwn :
    (c : Setup) (checks : ℕ → Check) (after : WorkspaceEvidence) (n : ℕ)
    (criteria : List AcceptanceCriterion) (a a' : TaskAttempt) (s s' : RuntimeState)
    → ((m : ℕ) (command : CommandCheck) (u : RuntimeState)
        → IsOwn c.id u
        → IsOwn c.id ((checks m).run command u).1)
    → validate_all c checks after n criteria a s ≡ ok (s', a')
    → IsOwn c.id s
    → IsOwn c.id s'
unfolding validate_all
validate_all-IsOwn c checks after n [] a a' s s' runs h own =
    subst (IsOwn c.id) (ap (state_or s') h) own
validate_all-IsOwn c checks after n (criterion ∷ more) a a' s s' runs h own =
    let ((s1, a1), e1, k1) = >>=-eq-ok (validate_one c (checks n) after criterion a s) _ h in
    validate_all-IsOwn c checks after (suc n) more a1 a' s1 s' runs k1
      (validate_one-IsOwn c (checks n) after criterion a a1 s s1 (runs n) e1 own)

observe-IsOwn :
    (c : Setup) (t : Turn) (base after : WorkspaceEvidence) (a : TaskAttempt) (s s' : RuntimeState)
    → observe c t base after a s ≡ ok s'
    → IsOwn c.id s
    → IsOwn c.id s'
unfolding observe
observe-IsOwn c t base after a s s' h own =
    let ((s1, u1), e1, k1) = >>=-eq-ok (saved_or_fail (attempt_update t.finish c.id a s)) _ h in
    let (head, k2) = passed_ok (not (opt_text_eq base.head after.head)) _ k1 in
    let done : s1 ≡ s' = ap (λ (r : Step RuntimeState). elim r [ err e ↦ s' | ok x ↦ x ]) k2 in
    subst (IsOwn c.id) done (update-IsOwn t.finish c.id c.id a s s1 u1 e1 own)

confirm-IsOwn :
    (id : TaskId) (t : Turn) (owner : AgentId) (after current : WorkspaceEvidence)
    (s s' : RuntimeState)
    → confirm_workspace t owner after s ≡ ok (s', current)
    → IsOwn id s
    → IsOwn id s'
unfolding confirm_workspace
confirm-IsOwn id t owner after current s s' h own =
    let ((s1, u1), e1, k1) =
      >>=-eq-ok (saved_or_fail (clear_attempt_group t.finish.env t.group_gone owner s)) _ h in
    let (found, e2, k2) = >>=-eq-ok (infra s1 t.current) _ k1 in
    let (same, k3) = passed_ok (not (text_eq found.fingerprint after.fingerprint)) _ k2 in
    let (in_time, k4) = passed_ok t.late_end _ k3 in
    subst (IsOwn id) (ap (state_or s') k4)
      (clear-IsOwn t.finish.env t.group_gone id owner s s1 u1 e1 own)

pub gather-IsOwn :
    (c : Setup) (t : Turn) (owner : AgentId) (base : WorkspaceEvidence) (a : TaskAttempt)
    (e : Evidence) (s s' : RuntimeState)
    → KeepsOwn c.id t
    → gather c t owner base a s ≡ ok (s', e)
    → IsOwn c.id s
    → IsOwn c.id s'
unfolding gather
gather-IsOwn c t owner base a e s s' keeps h own =
    let (after, e1, k1) = >>=-eq-ok (infra s t.after) _ h in
    let a1 = validating after a in
    let (s1, e2, k2) = >>=-eq-ok (observe c t base after a1 s) _ k1 in
    let own1 = observe-IsOwn c t base after a1 s s1 e2 own in
    let ((s3, a3), e4, k4) =
      >>=-eq-ok
        (validate_all c t.check after 0 (criteria_of c t.finish.env s1) a1 (with_labels c s1)) _
        k2 in
    let own3 =
      validate_all-IsOwn c t.check after 0 (criteria_of c t.finish.env s1) a1 a3 (with_labels c s1)
        s3 keeps.runs e4 (same-IsOwn c.id s1 (with_labels c s1) refl own1) in
    let ((s4, current), e5, k5) = >>=-eq-ok (confirm_workspace t owner after s3) _ k4 in
    subst (IsOwn c.id) (ap (state_or s') k5)
      (confirm-IsOwn c.id t owner after current s3 s4 e5 own3)
