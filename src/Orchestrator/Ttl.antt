-- ===== src/Orchestrator/Ttl.antt =====
-- How long src/core/orchestrator.js keeps an answer, by the polarity of src/core/semantics.js.
use para11ax.Common.{
  String, ◌≡◌, refl, ap, subst, inl, inr, Bool, true, false, ◌||◌, Option, List, [], ◌∷◌, ◌==ₛ◌,
  eq_iff, if◌then◌else◌, Bool-cases, All,
}
use para11ax.Semantics.{
  is_listed, or_empty, Polarity, negative, absence, positive_verdicts, explicit_negative_verdicts,
  absence_verdicts, polarity,
}
use para11ax.Orchestrator.{good, Adapter, Parts, cache_ttl_for, negative_semantic_verdicts}

-- A text on the list has what all texts on the list have.
listed-All :
    (P : String → Type 0) (v : String) (ts : List String) → All P ts → is_listed v ts ≡ true → P v
listed-All P v [] h k = cc
listed-All P v (t ∷ ts) h k = elim (Bool-cases (t ==ₛ v)) [
  | inl same ↦ subst P ((eq_iff t v).0 same) h.0
  | inr other ↦ listed-All P v ts h.1 (rw other at k)
]

-- A verdict that finds nothing.
abbrev pub is_quiet : Polarity → Bool
is_quiet negative = true
is_quiet absence = true
is_quiet p = false

abbrev IsNegative : Bool → String → Type 0
IsNegative b v = is_listed v negative_semantic_verdicts ≡ b

abbrev IsExplicit : String → Type 0
IsExplicit v = (is_listed v explicit_negative_verdicts || is_listed v absence_verdicts) ≡ true

positive-IsNegative : (v : String) → is_listed v positive_verdicts ≡ true → IsNegative false v
positive-IsNegative v h =
    listed-All (IsNegative false) v positive_verdicts
      (refl, (refl, (refl, (refl, (refl, (refl, (refl, tt))))))) h

explicit-IsNegative :
    (v : String) → is_listed v explicit_negative_verdicts ≡ true → IsNegative true v
explicit-IsNegative v h =
    listed-All (IsNegative true) v explicit_negative_verdicts (refl, (refl, tt)) h

absence-IsNegative : (v : String) → is_listed v absence_verdicts ≡ true → IsNegative true v
absence-IsNegative v h =
    listed-All (IsNegative true) v absence_verdicts (refl, (refl, (refl, (refl, tt)))) h

neutral-IsNegative :
    (v : String)
    → is_listed v explicit_negative_verdicts ≡ false
    → is_listed v absence_verdicts ≡ false
    → IsNegative false v
neutral-IsNegative v h k = elim (Bool-cases (is_listed v negative_semantic_verdicts)) [
  | inl listed ↦
      let e : IsExplicit v =
        listed-All IsExplicit v negative_semantic_verdicts
          (refl, (refl, (refl, (refl, (refl, (refl, tt)))))) listed in
      cc (rw (h, k) at e)
  | inr other ↦ other
]

quiet_verdict :
    (lower : String → String) (verdict : Option String)
    → is_listed (lower (or_empty verdict)) negative_semantic_verdicts
      ≡ is_quiet (polarity lower verdict)
unfolding polarity
quiet_verdict lower verdict =
    let v = lower (or_empty verdict) in
    elim (Bool-cases (is_listed v positive_verdicts)) [
      | inl found ↦ rw (found, polarity) (positive-IsNegative v found)
      | inr h₀ ↦ elim (Bool-cases (is_listed v explicit_negative_verdicts)) [
        | inl found ↦ rw (h₀, found, polarity) (explicit-IsNegative v found)
        | inr h₁ ↦ elim (Bool-cases (is_listed v absence_verdicts)) [
          | inl found ↦ rw (h₀, h₁, found, polarity) (absence-IsNegative v found)
          | inr h₂ ↦ rw (h₀, h₁, h₂, polarity) (neutral-IsNegative v h₁ h₂)
        ]
      ]
    ]

-- An answer is kept for the adapter's negative time just if the polarity of its verdict is negative or
-- absence, and for its plain time otherwise.
pub cache_ttl_for-polarity :
    {D E C : Type 0} (parts : Parts D E C) (adapter : Adapter) (data' : D)
    → cache_ttl_for parts adapter (good data') ≡ (
        if is_quiet (polarity parts.lower (parts.verdict data'))
        then adapter.negative_cache_ttl_ms
        else adapter.cache_ttl_ms)
unfolding cache_ttl_for
cache_ttl_for-polarity parts adapter data' =
    ap (λ b. if b then adapter.negative_cache_ttl_ms else adapter.cache_ttl_ms)
      (quiet_verdict parts.lower (parts.verdict data'))
