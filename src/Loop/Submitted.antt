-- ===== src/Loop/Submitted.antt =====
-- The evidence that a submitted review rests on (crates/ditchd/src/acceptance_runtime.rs).
use ditch.Prelude.{
  ℕ, suc, ◌≡◌, refl, sym, ap, ◌∙◌, subst, Bool, true, false, not, ◌||◌, List, [], ◌∷◌, ◌++◌, any,
  map, any-append, opt_text_eq, Text, text_eq, text_eq→eq, Result, ok, err, ◌>>◌, >>=-eq-ok,
  reject_if, arith,
}
use mathlib.Core.List.{append-nil, append_assoc, map-append}
use ditch.Core.{AgentId, TaskAttempt, AcceptanceCriterion, ValidatorEvidence, WorkspaceEvidence}
use ditch.Runtime.State.{RuntimeState}
use ditch.Loop.{Kept, attempt_update}
use ditch.Loop.Turn.{Turn, Check, Setup, Evidence, Step, saved_or_fail, infra}
use ditch.Loop.Worker.{clear_attempt_group}
use ditch.Loop.Validators.{run_acceptance_validator, evidence_of}
use ditch.Loop.Cycle.{
  is_infra, is_cancelled, validate_one, validate_all, gather, criteria_of, human_criteria, observe,
  confirm_workspace, validating, with_labels,
}

-- Evidence of an end that is no verdict.
abbrev pub is_broken : ValidatorEvidence → Bool
is_broken v = is_infra v.status || is_cancelled v.status

abbrev pub criterion_of : ValidatorEvidence → AcceptanceCriterion
criterion_of v = v.criterion

-- The evidence that a run of the validators adds to an attempt: one entry for each criterion, in
-- order, none of them broken.
pub record IsChecked (criteria : List AcceptanceCriterion) (a a' : TaskAttempt) : Type 0 where
  pub added : List ValidatorEvidence
  pub validators : a'.validators ≡ a.validators ++ added
  pub criteria_kept : map criterion_of added ≡ criteria
  pub sound : any is_broken added ≡ false

-- A test that was passed.
pub passed_ok :
    {E B : Type 0} (bad : Bool) (e : E) {rest : Result E B} {answer : B}
    → (reject_if bad e >> rest) ≡ ok answer
    → (bad ≡ false) × (rest ≡ ok answer)
passed_ok true e h = cc
passed_ok false e h = (refl, h)

-- A save that succeeds.
pub saved_ok :
    {A : Type 0} (r : Kept A) (s : RuntimeState) (a : A)
    → saved_or_fail r ≡ ok (s, a)
    → r ≡ (s, ok a)
saved_ok (s', err e) s a h = cc
saved_ok (s', ok b) s a h = cc

-- What was read.
pub infra_ok :
    {A : Type 0} (s : RuntimeState) (r : Result Text A) (a : A) → infra s r ≡ ok a → r ≡ ok a
infra_ok s (err e) a h = cc
infra_ok {A} s (ok b) a h = ap (λ (x : Step A). elim x [ err stop ↦ ok a | ok y ↦ ok y ]) h

-- The state that a step leaves.
abbrev pub state_or : {A : Type 0} → RuntimeState → Step (RuntimeState × A) → RuntimeState
state_or s (err stop) = s
state_or s (ok (s', a)) = s'

-- The answer of a step that succeeds.
abbrev pub answer_or : {A : Type 0} → A → Step (RuntimeState × A) → A
answer_or a (err stop) = a
answer_or a (ok (s, b)) = b

one-IsChecked :
    (c : Setup) (k : Check) (after : WorkspaceEvidence) (criterion : AcceptanceCriterion)
    (a a' : TaskAttempt) (s s' : RuntimeState)
    → validate_one c k after criterion a s ≡ ok (s', a')
    → IsChecked (criterion ∷ []) a a'
unfolding validate_one run_acceptance_validator evidence_of
one-IsChecked c k after criterion a a' s s' h =
    let (found, s1) = run_acceptance_validator k c.presets after criterion s in
    let next = record a { validators = a.validators ++ found ∷ [] } in
    let (open_flag, k1) = passed_ok k.cancelled _ h in
    let (saved, e2, k2) = >>=-eq-ok (saved_or_fail (attempt_update k.outside c.id next s1)) _ k1 in
    let (not_infra, k3) = passed_ok (is_infra found.status) _ k2 in
    let (not_cancelled, k4) = passed_ok (is_cancelled found.status) _ k3 in
    record { added = found ∷ []; validators = cc; criteria_kept = refl; sound = ground arith }

all-IsChecked :
    (c : Setup) (checks : ℕ → Check) (after : WorkspaceEvidence) (n : ℕ)
    (criteria : List AcceptanceCriterion) (a a' : TaskAttempt) (s s' : RuntimeState)
    → validate_all c checks after n criteria a s ≡ ok (s', a')
    → IsChecked criteria a a'
unfolding validate_all
all-IsChecked c checks after n [] a a' s s' h = record {
  added = [];
  validators = sym (append-nil a'.validators) ∙ cc;
  criteria_kept = refl;
  sound = refl;
}
all-IsChecked c checks after n (criterion ∷ more) a a' s s' h =
    let ((s1, a1), e1, k1) = >>=-eq-ok (validate_one c (checks n) after criterion a s) _ h in
    let one = one-IsChecked c (checks n) after criterion a a1 s s1 e1 in
    let rest = all-IsChecked c checks after (suc n) more a1 a' s1 s' k1 in
    record {
      added = one.added ++ rest.added;
      validators =
          rest.validators
          ∙ ap (λ (l : List ValidatorEvidence). l ++ rest.added) one.validators
          ∙ append_assoc a.validators one.added rest.added;
      criteria_kept =
          map-append criterion_of one.added rest.added
          ∙ ap (λ (l : List AcceptanceCriterion). l ++ map criterion_of rest.added)
              one.criteria_kept
          ∙ ap (λ (l : List AcceptanceCriterion). criterion ∷ l) rest.criteria_kept;
      sound = any-append is_broken one.added rest.added ∙ ground (arith, one.sound, rest.sound);
    }

-- What the evidence of a turn holds: `IsChecked` for the criteria of the turn, with the workspace at
-- the same HEAD before and behind the worker, and at the same fingerprint before and behind the
-- validators.
pub record IsGathered (c : Setup) (t : Turn) (base : WorkspaceEvidence) (a : TaskAttempt)
    (e : Evidence) : Type 0 where
  pub labels : List AcceptanceCriterion
  pub configured : (n : ℕ) × (labels ≡ human_criteria t.finish.env n c.initial.acceptance_criteria)
  pub checked : IsChecked (c.config.criteria ++ labels) a e.attempt
  pub base_kept : e.base ≡ base
  pub after_seen : t.after ≡ ok e.after
  pub current_seen : t.current ≡ ok e.current
  pub same_head : opt_text_eq e.base.head e.after.head ≡ true
  pub same_workspace : e.current.fingerprint ≡ e.after.fingerprint

observe_head :
    (c : Setup) (t : Turn) (base after : WorkspaceEvidence) (a : TaskAttempt) (s s' : RuntimeState)
    → observe c t base after a s ≡ ok s'
    → opt_text_eq base.head after.head ≡ true
unfolding observe
observe_head c t base after a s s' h =
    let ((s1, u1), e1, k1) = >>=-eq-ok (saved_or_fail (attempt_update t.finish c.id a s)) _ h in
    let (head, k2) = passed_ok (not (opt_text_eq base.head after.head)) _ k1 in ground arith

confirm_same :
    (t : Turn) (owner : AgentId) (after current : WorkspaceEvidence) (s s' : RuntimeState)
    → confirm_workspace t owner after s ≡ ok (s', current)
    → current.fingerprint ≡ after.fingerprint
unfolding confirm_workspace
confirm_same t owner after current s s' h =
    let ((s1, u1), e1, k1) =
      >>=-eq-ok (saved_or_fail (clear_attempt_group t.finish.env t.group_gone owner s)) _ h in
    let (found, e2, k2) = >>=-eq-ok (infra s1 t.current) _ k1 in
    let (same, k3) = passed_ok (not (text_eq found.fingerprint after.fingerprint)) _ k2 in
    let (in_time, k4) = passed_ok t.late_end _ k3 in
    let made : found ≡ current = ap (answer_or current) k4 in
    subst (λ (w : WorkspaceEvidence). w.fingerprint ≡ after.fingerprint) made
      (text_eq→eq found.fingerprint after.fingerprint (ground arith))

confirm_seen :
    (t : Turn) (owner : AgentId) (after current : WorkspaceEvidence) (s s' : RuntimeState)
    → confirm_workspace t owner after s ≡ ok (s', current)
    → t.current ≡ ok current
unfolding confirm_workspace
confirm_seen t owner after current s s' h =
    let ((s1, u1), e1, k1) =
      >>=-eq-ok (saved_or_fail (clear_attempt_group t.finish.env t.group_gone owner s)) _ h in
    let (found, e2, k2) = >>=-eq-ok (infra s1 t.current) _ k1 in
    let (same, k3) = passed_ok (not (text_eq found.fingerprint after.fingerprint)) _ k2 in
    let (in_time, k4) = passed_ok t.late_end _ k3 in
    infra_ok s1 t.current found e2
    ∙ ap (λ (w : WorkspaceEvidence). ok w) (ap (answer_or current) k4)

pub gather-IsGathered :
    (c : Setup) (t : Turn) (owner : AgentId) (base : WorkspaceEvidence) (a : TaskAttempt)
    (e : Evidence) (s s' : RuntimeState)
    → gather c t owner base a s ≡ ok (s', e)
    → IsGathered c t base a e
unfolding gather criteria_of
gather-IsGathered c t owner base a e s s' h =
    let (after, e1, k1) = >>=-eq-ok (infra s t.after) _ h in
    let a1 = validating after a in
    let (s1, e2, k2) = >>=-eq-ok (observe c t base after a1 s) _ k1 in
    let ((s3, a3), e4, k4) =
      >>=-eq-ok
        (validate_all c t.check after 0 (criteria_of c t.finish.env s1) a1 (with_labels c s1)) _
        k2 in
    let ((s4, current), e5, k5) = >>=-eq-ok (confirm_workspace t owner after s3) _ k4 in
    let checked =
      all-IsChecked c t.check after 0 (criteria_of c t.finish.env s1) a1 a3 (with_labels c s1) s3
        e4 in
    subst (IsGathered c t base a) (ap (answer_or e) k5) (record {
      labels = human_criteria t.finish.env s1.drawn c.initial.acceptance_criteria;
      configured = (s1.drawn, refl);
      checked = record {
        added = checked.added;
        validators = checked.validators;
        criteria_kept = checked.criteria_kept;
        sound = checked.sound;
      };
      base_kept = refl;
      after_seen = infra_ok s t.after after e1;
      current_seen = confirm_seen t owner after current s3 s4 e5;
      same_head = observe_head c t base after a1 s s1 e2;
      same_workspace = confirm_same t owner after current s3 s4 e5;
    })
