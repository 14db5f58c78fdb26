-- ===== src/Semantics.antt =====
-- src/core/semantics.js: the class of an observation and the polarity of a verdict. `toLowerCase` is the
-- platform's.
pub mod Laws
mod Examples
use para11ax.Common.{
  ℕ, zero, suc, ◌+◌, ◌-◌, ◌*◌, ◌/◌, ◌%◌, ◌≤◌, ◌<◌, min, max, String, ◌≡◌, refl, sym, ap, ◌∙◌, subst,
  ◌≢◌, ◌↔◌, ◌⊎◌, inl, inr, Bool, true, false, not, ◌&&◌, ◌||◌, Option, none, some, List, [], ◌∷◌,
  ◌++◌, map, arith, ◌==ₛ◌, eq_iff, ltb, leb, ◌==◌, if◌then◌else◌, Bool-cases, Option-cases, ltb→lt,
  ltb→le, leb→le, leb→lt, lt→ltb, ltb-false, le→leb, tests, length, drop, length-append, sum_of,
  sum_of-append, All, All-append, get_elem?, without, sum_of-without, All-without, some_eq,
  length-without, append_nil, append_snoc,
}

abbrev pub is_listed : String → List String → Bool
is_listed s [] = false
is_listed s (t ∷ ts) = t ==ₛ s || is_listed s ts

-- REPUTATION_KINDS
abbrev pub reputation_kinds : List String
reputation_kinds =
    "reputation" ∷ "ioc_reputation" ∷ "threat_intelligence" ∷ "multi_engine_reputation"
    ∷ "malicious_url" ∷ "malware_distribution" ∷ "phishing_feed" ∷ "phishing_feed_match"
    ∷ "botnet_c2" ∷ []

-- NETWORK_CONTEXT_KINDS
abbrev pub network_context_kinds : List String
network_context_kinds =
    "network_identity" ∷ "routing" ∷ "registration" ∷ "internet_exposure" ∷ "passive_dns"
    ∷ "dns_resolution" ∷ []

-- INTELLIGENCE_KINDS
abbrev pub intelligence_kinds : List String
intelligence_kinds =
    "malware_configuration" ∷ "malware_similarity" ∷ "supply_chain" ∷ "web_archive_observation"
    ∷ "secret_exposure" ∷ "crypto_abuse" ∷ "legal_entity_context" ∷ "tls_malware_infrastructure"
    ∷ "exploit_maturity" ∷ "defensive_knowledge" ∷ []

-- SEMANTIC_ALIASES
abbrev pub semantic_aliases : List (String × String)
semantic_aliases =
    ("reported_abuse", "abuse_reports")
    ∷ ("abuse_reports", "abuse_reports")
    ∷ ("community_intelligence", "threat_context")
    ∷ ("community_ioc_report", "threat_context")
    ∷ ("sample_hosts", "malware_association")
    ∷ ("malware_sample", "malware_sample_metadata")
    ∷ ("certificate_metadata", "certificate_context")
    ∷ []

-- aliases.get(value) ?? value
abbrev pub alias_in : List (String × String) → String → String
alias_in [] value = value
alias_in ((k, v) ∷ aliases) value = if k ==ₛ value then v else alias_in aliases value

abbrev pub vulnerability_kinds : List String
vulnerability_kinds =
    "vulnerability_metadata" ∷ "vulnerability_catalog" ∷ "open_source_vulnerability" ∷ []

-- Behind the first line of the function.
unfoldable pub class_of : String → String
class_of value =
    if is_listed value reputation_kinds
    then "reputation"
    else if is_listed value network_context_kinds
    then "network_context"
    else if is_listed value intelligence_kinds
    then value
    else if value ==ₛ "known_exploited"
    then "exploitation"
    else if value ==ₛ "exploit_probability"
    then "exploit_probability"
    else if is_listed value vulnerability_kinds
    then "vulnerability_metadata"
    else if value ==ₛ "attack_knowledge"
    then "attack_knowledge"
    else if value ==ₛ "scanner_activity"
    then "scanner_activity"
    else if value ==ₛ "tor_exit"
    then "tor_exit"
    else alias_in semantic_aliases value

-- `none` is a value that is no string.
unfoldable pub semantic_class : Option String → String
semantic_class none = class_of "unknown"
semantic_class (some kind) = class_of (if kind ==ₛ "" then "unknown" else kind)

pub data Polarity : Type 0 where
  positive negative absence neutral : Polarity

-- POSITIVE_VERDICTS
abbrev pub positive_verdicts : List String
positive_verdicts =
    "malicious" ∷ "suspicious" ∷ "phishing" ∷ "associated" ∷ "listed" ∷ "malware_sample"
    ∷ "known_exploited" ∷ []

-- EXPLICIT_NEGATIVE_VERDICTS
abbrev pub explicit_negative_verdicts : List String
explicit_negative_verdicts = "benign" ∷ "clean" ∷ []

-- ABSENCE_VERDICTS
abbrev pub absence_verdicts : List String
absence_verdicts = "no_association" ∷ "not_listed" ∷ "not_found" ∷ "no_result" ∷ []

-- verdict ?? ''
abbrev pub or_empty : Option String → String
or_empty none = ""
or_empty (some s) = s

unfoldable pub polarity : (lower : String → String) → Option String → Polarity
polarity lower verdict =
    let value = lower (or_empty verdict) in
    if is_listed value positive_verdicts
    then positive
    else if is_listed value explicit_negative_verdicts
    then negative
    else if is_listed value absence_verdicts
    then absence
    else neutral

abbrev pub is_decisive_polarity : Polarity → Bool
is_decisive_polarity positive = true
is_decisive_polarity negative = true
is_decisive_polarity p = false
