-- ===== src/Investigation.antt =====
-- src/core/investigation: which artifacts of an investigation a change makes stale (dependencies.js) and
-- the status that follows (status.js). An artifact's content matters here only by being there.
pub mod Freshness
pub mod Status
mod Examples
use para11ax.Common.{
  ℕ, zero, suc, ◌+◌, ◌-◌, ◌*◌, ◌/◌, ◌%◌, ◌≤◌, ◌<◌, min, max, String, ◌≡◌, refl, sym, ap, ◌∙◌, subst,
  ◌≢◌, ◌↔◌, ◌⊎◌, inl, inr, Bool, true, false, not, ◌&&◌, ◌||◌, Option, none, some, List, [], ◌∷◌,
  ◌++◌, map, arith, ◌==ₛ◌, eq_iff, ltb, leb, ◌==◌, if◌then◌else◌, Bool-cases, Option-cases, ltb→lt,
  ltb→le, leb→le, leb→lt, lt→ltb, ltb-false, le→leb, tests, length, drop, length-append, sum_of,
  sum_of-append, All, All-append, get_elem?, without, sum_of-without, All-without, some_eq,
  length-without, append_nil, append_snoc,
}

pub data Artifact : Type 0 where
  relevance hunt result disposition report service_now : Artifact

pub data Change : Type 0 where
  scope_changed observables_changed evidence_changed hunt_changed : Change
  kql_changed result_changed disposition_changed note_changed : Change

-- INVESTIGATION_INVALIDATION
abbrev pub investigation_invalidation : Change → List Artifact
investigation_invalidation scope_changed =
    relevance ∷ hunt ∷ result ∷ disposition ∷ report ∷ service_now ∷ []
investigation_invalidation observables_changed = hunt ∷ disposition ∷ report ∷ service_now ∷ []
investigation_invalidation evidence_changed =
    hunt ∷ result ∷ disposition ∷ report ∷ service_now ∷ []
investigation_invalidation hunt_changed = result ∷ disposition ∷ report ∷ service_now ∷ []
investigation_invalidation kql_changed = result ∷ disposition ∷ report ∷ service_now ∷ []
investigation_invalidation result_changed = disposition ∷ report ∷ service_now ∷ []
investigation_invalidation disposition_changed = report ∷ service_now ∷ []
investigation_invalidation note_changed = report ∷ []

-- ARTIFACT_ORDER
abbrev pub artifact_order : List Artifact
artifact_order = relevance ∷ hunt ∷ result ∷ disposition ∷ report ∷ service_now ∷ []

-- The place of an artifact's name in `artifact_order`, by which names are compared.
abbrev pub place : Artifact → ℕ
place relevance = 0
place hunt = 1
place result = 2
place disposition = 3
place report = 4
place service_now = 5

abbrev pub same_artifact : Artifact → Artifact → Bool
same_artifact a b = place a == place b

abbrev pub includes : Artifact → List Artifact → Bool
includes a [] = false
includes a (b ∷ bs) = same_artifact b a || includes a bs

-- `new Map(…)` from artifacts to reasons, by what `get` answers.
abbrev pub Reasons : Type 0
Reasons = Artifact → Option Change

abbrev pub set_reason : Artifact → Change → Reasons → Reasons
set_reason a reason m = λ b. if same_artifact a b then some reason else m b

abbrev pub no_reasons : Reasons
no_reasons a = none

-- An entry of `freshness.stale`.
abbrev pub Stale : Type 0
Stale = Artifact × Change

unfoldable pub set_all : List Stale → Reasons → Reasons
set_all [] m = m
set_all ((a, reason) ∷ es) m = set_all es (set_reason a reason m)

abbrev pub reasons_of : List Stale → Reasons
reasons_of es = set_all es no_reasons

-- What of an investigation the two files read; `kql_valid` has, for each query validation, whether one
-- of its three marks says that it is valid.
pub record Investigation : Type 0 where
  pub has_id : Bool
  pub has_profile : Bool
  pub has_context : Bool
  pub evidence_snapshots : ℕ
  pub workflow : Artifact → Bool
  pub kql_valid : List Bool
  pub stale : List Stale

-- The loop over the targets.
unfoldable pub mark : Change → (Artifact → Bool) → List Artifact → Reasons → Reasons
mark change present [] m = m
mark change present (a ∷ as') m =
    mark change present as' (if present a then set_reason a change m else m)

abbrev pub entry_of : Artifact → Option Change → List Stale → List Stale
entry_of a none es = es
entry_of a (some reason) es = (a, reason) ∷ es

-- ARTIFACT_ORDER.filter(…).map(…)
unfoldable pub listed : List Artifact → Reasons → List Stale
listed [] m = []
listed (a ∷ as') m = entry_of a (m a) (listed as' m)

-- `invalidateInvestigation`
unfoldable pub invalidate_investigation : Change → Investigation → Investigation
invalidate_investigation change i = record i {
  stale =
      listed artifact_order
        (mark change i.workflow (investigation_invalidation change) (reasons_of i.stale));
}

unfoldable pub without_cleared : List Artifact → List Stale → List Stale
without_cleared cleared [] = []
without_cleared cleared ((a, reason) ∷ es) =
    let rest = without_cleared cleared es in if includes a cleared then rest else (a, reason) ∷ rest

-- `clearStaleArtifacts`
unfoldable pub clear_stale_artifacts : List Artifact → Investigation → Investigation
clear_stale_artifacts cleared i = record i { stale = without_cleared cleared i.stale }
