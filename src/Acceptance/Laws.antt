-- ===== src/Acceptance/Laws.antt =====
-- What `AcceptanceConfig::validate` admits.
use ditch.Prelude.{
  ℕ, ◌≤◌, ◌≡◌, any-false, any_none, ◌≢◌, ◌↔◌, subst, refl, inl, inr, Bool, true, false, ◌==◌, List,
  [], ◌∷◌, any, In, length, is_empty, Text, byte_len, is_blank, ok, arith,
}
use ditch.Core.{
  CommandCheck, CriterionKind, GitPredicate, AcceptanceCriterion, AcceptanceConfig, LoopPolicy,
}
use ditch.Acceptance.{
  total_len, bad_argument, first_empty, validate_command, content_too_long, validate_kind,
  validate_criteria, invalid_policy, validate_config,
}
use ditch.Acceptance.Paths.Safe.{IsInside, relative_check_path-IsInside}

-- A fixed command: some arguments, a program, bounded sizes, no NUL, and a place inside the project.
pub record IsRunnable (c : CommandCheck) : Type 0 where
  pub some_arguments : is_empty c.argv ≡ false
  pub program : first_empty c.argv ≡ false
  pub total : total_len c.argv ≤ 16384
  pub arguments : length c.argv ≤ 64
  pub argument : (v : Text) → In v c.argv → (any (λ c. c == 0) v ≡ false) × (byte_len v ≤ 4096)
  pub timeout : (1 ≤ c.timeout_seconds) × (c.timeout_seconds ≤ 300)
  pub inside : IsInside c.cwd

validate_command-IsRunnable : (c : CommandCheck) → (validate_command c ≡ ok tt) ↔ IsRunnable c
unfolding validate_command bad_argument
validate_command-IsRunnable c = (
  λ h. record {
    some_arguments = ground arith;
    program = ground arith;
    total = ground arith;
    arguments = ground arith;
    argument = λ v m. let good = any-false bad_argument c.argv v (ground arith) m in ground arith;
    timeout = ground arith;
    inside = (relative_check_path-IsInside c.cwd).0 (ground arith);
  },
  λ r.
      let place = (relative_check_path-IsInside c.cwd).1 r.inside in
      let good = any_none bad_argument c.argv (λ v m. let fact = r.argument v m in ground arith) in
      ground (arith, r.total, r.arguments, r.timeout, r.some_arguments, r.program),
)

-- What a criterion of each kind has to bring.
abbrev pub IsCheckable : CriterionKind → Type 0
IsCheckable (CriterionKind.command c) = IsRunnable c
IsCheckable (CriterionKind.file path predicate) =
    IsInside path × (content_too_long predicate ≡ false)
IsCheckable (CriterionKind.git (GitPredicate.changed_path p)) = IsInside p
IsCheckable (CriterionKind.git (GitPredicate.forbidden_path p)) = IsInside p
IsCheckable (CriterionKind.git GitPredicate.clean) = Unit
IsCheckable (CriterionKind.git GitPredicate.dirty) = Unit
IsCheckable (CriterionKind.git (GitPredicate.max_diff_bytes n)) = Unit
IsCheckable (CriterionKind.test_preset name) = (is_empty name ≡ false) × (byte_len name ≤ 128)
IsCheckable CriterionKind.human = Unit
IsCheckable CriterionKind.agent_assertion = Unit

kind-IsCheckable : (k : CriterionKind) → validate_kind k ≡ ok tt → IsCheckable k
unfolding validate_kind
kind-IsCheckable (CriterionKind.command c) h = (validate_command-IsRunnable c).0 h
kind-IsCheckable (CriterionKind.file path predicate) h =
    ((relative_check_path-IsInside path).0 (ground arith), ground arith)
kind-IsCheckable (CriterionKind.git (GitPredicate.changed_path p)) h =
    (relative_check_path-IsInside p).0 h
kind-IsCheckable (CriterionKind.git (GitPredicate.forbidden_path p)) h =
    (relative_check_path-IsInside p).0 h
kind-IsCheckable (CriterionKind.git _) h = tt
kind-IsCheckable (CriterionKind.test_preset name) h = ground arith
kind-IsCheckable _ h = tt

IsCheckable-kind : (k : CriterionKind) → IsCheckable k → validate_kind k ≡ ok tt
unfolding validate_kind
IsCheckable-kind (CriterionKind.command c) h = (validate_command-IsRunnable c).1 h
IsCheckable-kind (CriterionKind.file path predicate) h =
    ground (arith, (relative_check_path-IsInside path).1 h.0)
IsCheckable-kind (CriterionKind.git (GitPredicate.changed_path p)) h =
    (relative_check_path-IsInside p).1 h
IsCheckable-kind (CriterionKind.git (GitPredicate.forbidden_path p)) h =
    (relative_check_path-IsInside p).1 h
IsCheckable-kind (CriterionKind.git _) h = refl
IsCheckable-kind (CriterionKind.test_preset name) h = ground arith
IsCheckable-kind _ h = refl

-- A criterion on its own.
abbrev pub IsBounded : AcceptanceCriterion → Type 0
IsBounded c = (is_blank c.label ≡ false) × (byte_len c.label ≤ 512) × IsCheckable c.kind

-- No two criteria share an identity.
abbrev pub Distinct : List AcceptanceCriterion → Type 0
Distinct [] = Unit
Distinct (c ∷ cs) = ((d : AcceptanceCriterion) → In d cs → c.id ≢ d.id) × Distinct cs

abbrev seen : List ℕ → ℕ → Bool
seen ids n = any (λ id. id == n) ids

record IsAdmitted (ids : List ℕ) (cs : List AcceptanceCriterion) : Type 0 where
  bounded : (c : AcceptanceCriterion) → In c cs → IsBounded c
  unseen : (c : AcceptanceCriterion) → In c cs → seen ids c.id ≡ false
  distinct : Distinct cs

IsAdmitted-tail :
    (ids : List ℕ) (c : AcceptanceCriterion) (cs : List AcceptanceCriterion)
    → IsAdmitted ids (c ∷ cs)
    → IsAdmitted (c.id ∷ ids) cs
IsAdmitted-tail ids c cs a = record {
  bounded = λ d m. a.bounded d (inr m);
  unseen = λ d m.
      let (fresh, rest) = a.distinct in
      let old = a.unseen d (inr m) in let other = fresh d m in ground arith;
  distinct = a.distinct.1;
}

criteria-IsAdmitted :
    (ids : List ℕ) (cs : List AcceptanceCriterion)
    → validate_criteria ids cs ≡ ok tt
    → IsAdmitted ids cs
unfolding validate_criteria
criteria-IsAdmitted ids [] h = record {
  bounded = λ c m. elim m [ ];
  unseen = λ c m. elim m [ ];
  distinct = tt;
}
criteria-IsAdmitted ids (c ∷ cs) h =
    let rest = criteria-IsAdmitted (c.id ∷ ids) cs (ground arith) in
    let kind = kind-IsCheckable c.kind (ground arith) in
    let own : IsBounded c = (ground arith, ground arith, kind) in
    let new : seen ids c.id ≡ false = ground arith in
    record {
      bounded = λ d m. elim m [ inl e ↦ subst IsBounded e own | inr later ↦ rest.bounded d later ];
      unseen = λ d m. elim m [
        | inl e ↦ subst (λ (x : AcceptanceCriterion). seen ids x.id ≡ false) e new
        | inr later ↦ (let fact = rest.unseen d later in ground arith)
      ];
      distinct = (λ d m e. let fact = rest.unseen d m in ground arith, rest.distinct);
    }

IsAdmitted-criteria :
    (ids : List ℕ) (cs : List AcceptanceCriterion)
    → IsAdmitted ids cs
    → validate_criteria ids cs ≡ ok tt
unfolding validate_criteria
IsAdmitted-criteria ids [] a = refl
IsAdmitted-criteria ids (c ∷ cs) a =
    let own = a.bounded c (inl refl) in
    let new = a.unseen c (inl refl) in
    ground (
      arith,
      IsCheckable-kind c.kind own.2,
      IsAdmitted-criteria (c.id ∷ ids) cs (IsAdmitted-tail ids c cs a),
    )

-- A loop policy within its hard limits.
pub record IsLimited (p : LoopPolicy) : Type 0 where
  pub attempts : (1 ≤ p.max_attempts) × (p.max_attempts ≤ 10)
  pub deadline : (1 ≤ p.deadline_seconds) × (p.deadline_seconds ≤ 86400)
  pub validator : (1 ≤ p.validator_timeout_seconds) × (p.validator_timeout_seconds ≤ 300)
  pub denial : p.stop_on_denial ≡ true

-- A configuration is admitted exactly if its loop has 1 to 10 attempts, a deadline of 1 to 86400
-- seconds, validator timeouts of 1 to 300 seconds and stops on a denial, and it has at most 16
-- criteria, with distinct identities, labels that are not blank and have at most 512 bytes, and
-- checks that run a bounded command inside the project, look at a path inside it with at most 4 KiB
-- of content, or name a preset of 1 to 128 bytes.
pub validate_config-IsLimited :
    (config : AcceptanceConfig)
    → (validate_config config ≡ ok tt) ↔ (
        IsLimited config.policy
        × (length config.criteria ≤ 16)
        × ((c : AcceptanceCriterion) → In c config.criteria → IsBounded c)
        × Distinct config.criteria)
unfolding validate_config invalid_policy
validate_config-IsLimited config = (
  λ h.
      let a = criteria-IsAdmitted [] config.criteria (ground arith) in
      (ground arith, ground arith, a.bounded, a.distinct),
  λ v.
      let (limited, few, bounded, distinct) = v in
      let a : IsAdmitted [] config.criteria = record {
        bounded = bounded;
        unseen = λ c m. refl;
        distinct = distinct;
      } in
      ground (arith, IsAdmitted-criteria [] config.criteria a),
)
