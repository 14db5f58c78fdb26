-- ===== src/AgentState.antt =====
-- src/core/agent-state.js with agent-policy.js: the state of an agent's work, as the values that its checks
-- let through. A value has the fields and the types that `importAgentState` asks for; what else it checks
-- is here. `Date` and the canonical JSON text of a payload are the platform's.
pub mod Import
pub mod Reduce
pub mod Drift
pub mod Handoff
pub mod Hashes
pub mod Stable
pub mod Validated
pub mod Changes
pub mod Sound
pub mod Actions
pub mod History
pub mod Stamped
pub mod Steps
pub mod Runs
pub mod Defined
pub mod Sealed
mod Examples
use para11ax.Common.{
  ℕ, zero, suc, ◌+◌, ◌-◌, ◌*◌, ◌/◌, ◌%◌, ◌≤◌, ◌<◌, min, max, String, ◌≡◌, refl, sym, ap, ◌∙◌, subst,
  ◌≢◌, ◌↔◌, ◌⊎◌, inl, inr, Bool, true, false, not, ◌&&◌, ◌||◌, Option, none, some, List, [], ◌∷◌,
  ◌++◌, map, arith, ◌==ₛ◌, eq_iff, ltb, leb, ◌==◌, if◌then◌else◌, Bool-cases, Option-cases, ltb→lt,
  ltb→le, leb→le, leb→lt, lt→ltb, ltb-false, le→leb, tests, length, drop, length-append, sum_of,
  sum_of-append, All, All-append, get_elem?, without, sum_of-without, All-without, some_eq,
  length-without, append_nil, append_snoc,
}
use para11ax.JsText.{Text, codes, same_text, is_member, trim, replace_line_ends}
use para11ax.Sha256.{sha256_hex}
use para11ax.Sha256.Digest.{is_hex}

pub data Checked {ℓ} (A : Type ℓ) : Type ℓ where
  ok : A → Checked A
  -- the field or the reason that the error names
  rejected : String → Checked A

infixl 5 ◌>>=◌ ◌>>◌
abbrev pub ◌>>=◌ {ℓ κ} : {A : Type ℓ} {B : Type κ} → Checked A → (A → Checked B) → Checked B
ok a >>= f = f a
rejected e >>= f = rejected e

abbrev pub ◌>>◌ {ℓ} : {B : Type ℓ} → Checked (Unit {0}) → Checked B → Checked B
m >> k = m >>= λ _. k

-- if (!test) fail(…)
abbrev pub check : Bool → String → Checked (Unit {0})
check true e = ok tt
check false e = rejected e

abbrev pub max_text : ℕ
max_text = 8192

abbrev pub max_list : ℕ
max_list = 128

abbrev pub max_timeline : ℕ
max_timeline = 256

-- Number.MAX_SAFE_INTEGER
abbrev pub max_safe_integer : ℕ
max_safe_integer = 9007199254740991

-- UNSAFE_CONTROL
abbrev pub is_unsafe_control : ℕ → Bool
is_unsafe_control c = leb c 8 || c == 11 || c == 12 || (leb 14 c && leb c 31) || c == 127

abbrev pub has_unsafe_control : Text → Bool
has_unsafe_control [] = false
has_unsafe_control (c ∷ cs) = is_unsafe_control c || has_unsafe_control cs

abbrev pub is_empty : Text → Bool
is_empty [] = true
is_empty (c ∷ cs) = false

unfoldable pub text : (field : String) (maximum : ℕ) → Text → Checked Text
text field maximum value =
    let normalized = trim (replace_line_ends value) in
    if is_empty normalized || ltb maximum (length normalized) || has_unsafe_control normalized
    then rejected field
    else ok normalized

abbrev pub map_checked {ℓ} : {A : Type ℓ} → (A → Checked A) → List A → Checked (List A)
map_checked f [] = ok []
map_checked f (x ∷ xs) = f x >>= λ y. map_checked f xs >>= λ ys. ok (y ∷ ys)

abbrev pub has_duplicate : List Text → Bool
has_duplicate [] = false
has_duplicate (t ∷ ts) = is_member t ts || has_duplicate ts

unfoldable pub unique_text : String → List Text → Checked (List Text)
unique_text field values = do
  check (leb (length values) max_list) field
  let normalized = (← map_checked (text field 2048) values)
  check (not (has_duplicate normalized)) field
  ok normalized

-- AGENT_TASK_CLASSES
abbrev pub agent_task_classes : List Text
agent_task_classes =
    codes "simple_transform"
    ∷ codes "research"
    ∷ codes "coding"
    ∷ codes "security_analysis"
    ∷ codes "cyber_research"
    ∷ codes "deep_reasoning"
    ∷ codes "long_context"
    ∷ codes "review"
    ∷ codes "analysis"
    ∷ []

-- AGENT_RISK_LEVELS
abbrev pub agent_risk_levels : List Text
agent_risk_levels = codes "low" ∷ codes "medium" ∷ codes "high" ∷ []

unfoldable pub is_agent_task_class : Text → Bool
is_agent_task_class value = is_member value agent_task_classes

unfoldable pub is_agent_risk_level : Text → Bool
is_agent_risk_level value = is_member value agent_risk_levels

pub record Artifact : Type 0 where
  pub id : Text
  pub kind : Text
  pub ref : Text
  pub summary : Text
  pub at : Text

pub record HandoffRecord : Type 0 where
  pub id : Text
  pub at : Text
  pub to : Text
  pub reason : Text
  pub invariant_hash : Text

pub record TimelineEntry : Type 0 where
  pub id : Text
  pub at : Text
  pub type : Text
  pub reason : Option Text

pub record Checkpoint : Type 0 where
  pub at : Text
  pub revision : ℕ
  pub invariant_hash : Text
  pub state_hash : Text

-- `invariantPayload`
pub record Invariant : Type 0 where
  pub objective : Text
  pub task_class : Text
  pub risk : Text
  pub constraints : List Text
  pub decisions : List Text

-- The state without its checkpoint: `fullStatePayload`.
pub record Payload : Type 0 where
  pub schema_version : Text
  pub id : Text
  pub invariant : Invariant
  pub artifacts : List Artifact
  pub next_actions : List Text
  pub revision : ℕ
  pub epoch : ℕ
  pub created_at : Text
  pub updated_at : Text
  pub handoffs : List HandoffRecord
  pub timeline : List TimelineEntry

pub record AgentState : Type 0 where
  pub payload : Payload
  pub checkpoint : Checkpoint

-- What the code uses of the platform.
pub record Platform : Type 0 where
  -- Date.parse accepts the text, and toISOString gives it back
  pub is_timestamp : Text → Bool
  -- TextEncoder
  pub utf8 : Text → List ℕ
  -- canonicalJson
  pub invariant_json : Invariant → Text
  pub payload_json : Payload → Text

module _ (platform : Platform) where
  abbrev pub timestamp : String → Text → Checked Text
  timestamp field value = if platform.is_timestamp value then ok value else rejected field

  unfoldable pub agent_invariant_hash : Invariant → Text
  agent_invariant_hash i = sha256_hex (platform.utf8 (platform.invariant_json i))

  unfoldable pub agent_state_hash : Payload → Text
  agent_state_hash p = sha256_hex (platform.utf8 (platform.payload_json p))

abbrev pub all_hex : Text → Bool
all_hex [] = true
all_hex (c ∷ cs) = is_hex c && all_hex cs

-- /^[a-f0-9]{64}$/
unfoldable pub is_hash : Text → Bool
is_hash t = length t == 64 && all_hex t
