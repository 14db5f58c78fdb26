-- ===== src/Orchestrator/Coverage.antt =====
-- buildCoverage and the limitations of src/core/orchestrator.js, but for the capabilities of each provider.
-- `sort` is the sorting of an array of texts.
use para11ax.Common.{
  ℕ, zero, suc, ◌+◌, ◌*◌, String, Bool, true, false, not, ◌&&◌, ◌||◌, Option, none, some, List, [],
  ◌∷◌, ◌++◌, map, ◌==ₛ◌, ltb, if◌then◌else◌, length,
}
use para11ax.JsMap.{get}
use para11ax.Semantics.{is_listed, semantic_class}
use para11ax.Orchestrator.{good, Record, ran, Adapter, Parts, supporting, Totals}

-- new Set(…)
abbrev pub distinct : List String → List String → List String
distinct seen [] = []
distinct seen (s ∷ ss) =
    let old = is_listed s seen in
    let rest = distinct (if old then seen else s ∷ seen) ss in if old then rest else s ∷ rest

abbrev typed_or : List String → List String → List String
typed_or fallback [] = fallback
typed_or fallback (t ∷ ts) = t ∷ ts

abbrev pub coverage_observation_types : Adapter → String → List String
coverage_observation_types adapter type = elim (get type adapter.observation_types_by_type) [
  | none ↦ adapter.observation_types
  | some typed ↦ typed_or adapter.observation_types typed
]

abbrev pub expected_classes : Adapter → String → List String
expected_classes adapter type =
    distinct [] (map (λ kind. semantic_class (some kind)) (coverage_observation_types adapter type))

pub record Classes : Type 0 where
  -- the keys of classProviders
  pub expected : List String
  pub successful : List String

pub record Coverage : Type 0 where
  pub selected : ℕ
  pub executed : ℕ
  pub succeeded : ℕ
  pub failed : ℕ
  pub skipped : ℕ
  pub material_loss : Bool

abbrev only_one : List String → List String
only_one (c ∷ []) = c ∷ []
only_one cs = []

-- classProviders.keys().some(cls => !successfulClasses.has(cls))
abbrev pub has_missing : List String → List String → Bool
has_missing [] successful = false
has_missing (c ∷ cs) successful = not (is_listed c successful) || has_missing cs successful

abbrev pub max_limitations : ℕ
max_limitations = 16

abbrev pub take : ℕ → List String → List String
take zero ss = []
take (suc n) [] = []
take (suc n) (s ∷ ss) = s ∷ take n ss

abbrev pub added_if : Bool → String → List String
added_if true s = s ∷ []
added_if false s = []

module _ {D E C : Type 0} (parts : Parts D E C) where
  -- The class of a successful provider's observation, or its only expected class.
  abbrev pub actual_classes : List String → D → List String
  actual_classes expected data' = elim (parts.observation_type data') [
    | none ↦ only_one expected
    | some kind ↦ if kind ==ₛ "" then only_one expected else semantic_class (some kind) ∷ []
  ]

  abbrev pub record_classes : List String → Option (Record D) → List String
  record_classes expected (some (ran (good data') state)) = actual_classes expected data'
  record_classes expected r = []

  -- The body of the loop.
  unfoldable pub add_classes : (type name : String) → Totals parts → Classes → Classes
  add_classes type name t c = elim (supporting parts type name) [
    | none ↦ c
    | some adapter ↦
        let expected = expected_classes adapter type in
        record {
          expected = distinct [] (c.expected ++ expected);
          successful = c.successful ++ record_classes expected (get name t.records);
        }
  ]

  unfoldable pub add_all_classes : String → List String → Totals parts → Classes → Classes
  add_all_classes type [] t c = c
  add_all_classes type (name ∷ names) t c = add_all_classes type names t (add_classes type name t c)

  -- lost / selected > 0.25
  unfoldable pub build_coverage :
      (type : String) → List String → (executed : List String) → Totals parts → Coverage
  build_coverage type names executed t =
      let classes = add_all_classes type names t (record { expected = []; successful = [] }) in
      let selected = length names in
      record {
        selected = selected;
        executed = length executed;
        succeeded = t.ok;
        failed = t.failed;
        skipped = t.skipped;
        material_loss =
            (ltb 0 selected && ltb selected (4 * (t.failed + t.skipped)))
            || has_missing classes.expected classes.successful;
      }

unfoldable pub merge_limitations :
    (sort : List String → List String) → List String → Coverage → List String
merge_limitations sort limitations c =
    let partial' = ltb 0 c.succeeded && (ltb 0 c.failed || ltb 0 c.skipped) in
    take max_limitations (
      sort (
        distinct [] (
          limitations
          ++ (added_if partial' "partial_provider_failure"
              ++ added_if c.material_loss "material_coverage_loss"))))
