-- ===== src/Execution/Models.antt =====
-- src/mycellm/execution/models.py: the types that the planner and the coordinator share.
-- `tok_s` and `params_b` are in thousandths and `temperature` in hundredths. A unit's identifier
-- and a target's text are kept as the data that their texts show.
use mycellm.Prelude.{
  ℕ, String, Option, Bool, true, false, ◌&&◌, List, [], ◌∷◌, ◌++◌, ◌==◌, eqb, negb, any, filter,
  find,
}
use mycellm.Prelude.Text.{Text, join, is_empty}

pub data Strategy : Type 0 where
  direct replica swarm : Strategy

pub data Role : Type 0 where
  direct proposer synthesizer critic verifier embed : Role

unfoldable pub role_value : Role → String
role_value Role.direct = "direct"
role_value proposer = "proposer"
role_value synthesizer = "synthesizer"
role_value critic = "critic"
role_value verifier = "verifier"
role_value embed = "embed"

unfoldable pub role_eq : Role → Role → Bool
role_eq Role.direct Role.direct = true
role_eq proposer proposer = true
role_eq synthesizer synthesizer = true
role_eq critic critic = true
role_eq verifier verifier = true
role_eq embed embed = true
role_eq _ _ = false

pub record Target : Type 0 where
  pub model : String
  pub kind : String
  pub peer_id : String
  pub serving_group_id : String
  pub network_ids : List String
  pub tok_s : ℕ
  pub roles : List String
  pub params_b : ℕ

-- `role in roles`
unfoldable pub member : String → List String → Bool
member s l = any (λ x. x == s) l

unfoldable pub can : Target → String → Bool
unfolding member
can t role = elim t.roles [ [] ↦ role == "direct" | r ∷ rs ↦ member role (r ∷ rs) ]

abbrev pub is_remote : Target → Bool
is_remote t = negb (t.kind == "local")

strings_eq : List String → List String → Bool
strings_eq [] [] = true
strings_eq (x ∷ xs) (y ∷ ys) = x == y && strings_eq xs ys
strings_eq _ _ = false

-- The equality of a frozen dataclass: every field.
unfoldable pub target_eq : Target → Target → Bool
unfolding strings_eq
target_eq s t =
    s.model == t.model
    && (s.kind == t.kind
        && (s.peer_id == t.peer_id
            && (s.serving_group_id == t.serving_group_id
                && (strings_eq s.network_ids t.network_ids
                    && (eqb s.tok_s t.tok_s
                        && (strings_eq s.roles t.roles && eqb s.params_b t.params_b))))))

-- `{job_id}-u0`, `{job_id}-p{i}` and `{job_id}-syn`.
pub data UnitId : Type 0 where
  direct_id synthesis_id : String → UnitId
  proposer_id : String → ℕ → UnitId

-- A part of a message's content list: a dict with its `text` (empty if it has none), or another value.
pub data Part : Type 0 where
  dict_part : Text → Part
  other_part : Part

pub data Content : Type 0 where
  plain : Text → Content
  parts : List Part → Content
  no_content : Content

pub record Message : Type 0 where
  pub role : String
  pub content : Content

pub record WorkUnit : Type 0 where
  pub unit_id : UnitId
  pub role : Role
  pub target : Target
  pub messages : List Message
  pub temperature : ℕ
  pub max_tokens : ℕ
  pub depends_on : List UnitId

pub record WorkUnitResult : Type 0 where
  pub unit_id : UnitId
  pub role : Role
  pub target : Target
  pub text : Text
  pub error : Text
  pub prompt_tokens : ℕ
  pub completion_tokens : ℕ
  pub cancelled : Bool

unfoldable pub is_ok : WorkUnitResult → Bool
is_ok r = negb (is_empty r.text) && (is_empty r.error && negb r.cancelled)

pub record Job : Type 0 where
  pub job_id : String
  pub model : String
  pub messages : List Message
  pub temperature : ℕ
  pub max_tokens : ℕ
  pub network_ids : Option (List String)
  pub token_budget : ℕ
  pub trust : String
  pub fanout : ℕ

part_texts : List Part → List Text
part_texts [] = []
part_texts (dict_part t ∷ ps) = t ∷ part_texts ps
part_texts (other_part ∷ ps) = part_texts ps

content_texts : Content → List Text
unfolding part_texts
content_texts (plain t) = t ∷ []
content_texts (parts ps) = part_texts ps
content_texts no_content = []

message_texts : List Message → List Text
unfolding content_texts
message_texts [] = []
message_texts (m ∷ ms) = content_texts m.content ++ message_texts ms

unfoldable pub prompt_text : Job → Text
unfolding message_texts join
prompt_text job = join (32 ∷ []) (filter (λ t. negb (is_empty t)) (message_texts job.messages))

-- Why the planner decided as it did, with what the text of the reason shows.
pub data PlanReason : Type 0 where
  warned_target direct_to : Target → PlanReason
  no_eligible_target all_refused local_available one_model_only : PlanReason
  fallback_targets undeclared_proposers degraded_to_direct : ℕ → PlanReason
  swarm_of : ℕ → ℕ → Target → PlanReason

pub record ExecutionPlan {ℓ} (Refusal : Type ℓ) : Type ℓ where
  pub job_id : String
  pub strategy : Strategy
  pub units : List WorkUnit
  pub reasons : List PlanReason
  pub rejected : List (Target × Refusal)
  pub token_budget : ℕ

unfoldable pub proposers {ℓ} : {R : Type ℓ} → ExecutionPlan R → List WorkUnit
unfolding role_eq
proposers plan = filter (λ u. role_eq u.role proposer) plan.units

unfoldable pub synthesizer_of {ℓ} : {R : Type ℓ} → ExecutionPlan R → Option WorkUnit
unfolding role_eq
synthesizer_of plan = find (λ u. role_eq u.role synthesizer) plan.units
