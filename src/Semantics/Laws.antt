-- ===== src/Semantics/Laws.antt =====
-- Laws of src/core/semantics.js.
use para11ax.Common.{
  String, ◌≡◌, refl, sym, ◌∙◌, subst, inl, inr, false, Option, none, some, List, [], ◌∷◌, ◌==ₛ◌,
  if◌then◌else◌, Bool-cases,
}
use para11ax.Semantics.{
  is_listed, reputation_kinds, network_context_kinds, intelligence_kinds, semantic_aliases,
  alias_in, vulnerability_kinds, class_of, semantic_class,
}

-- A text that is its own class, and not empty.
abbrev IsClass : String → Type 0
IsClass s = (class_of s ≡ s) × ((s ==ₛ "") ≡ false)

AreClasses : List (String × String) → Type 0
AreClasses [] = Unit
AreClasses ((k, v) ∷ aliases) = IsClass v × AreClasses aliases

alias_in-IsClass :
    (aliases : List (String × String)) (value : String)
    → AreClasses aliases
    → (alias_in aliases value ≡ value → IsClass value)
    → IsClass (alias_in aliases value)
unfolding AreClasses
alias_in-IsClass [] value h fixed = fixed refl
alias_in-IsClass ((k, v) ∷ aliases) value h fixed = elim (Bool-cases (k ==ₛ value)) [
  | inl found ↦ rw found h.0
  | inr other ↦ rw other (alias_in-IsClass aliases value h.1 (λ same. fixed (rw other same)))
]

aliases-AreClasses : AreClasses semantic_aliases
unfolding AreClasses class_of
aliases-AreClasses = (
  (refl, refl),
  (
    (refl, refl),
    ((refl, refl), ((refl, refl), ((refl, refl), ((refl, refl), ((refl, refl), tt))))),
  ),
)

IsClass-alias :
    (value : String)
    → (value ==ₛ "") ≡ false
    → class_of value ≡ alias_in semantic_aliases value
    → IsClass (class_of value)
IsClass-alias value full h =
    subst IsClass (sym h)
      (alias_in-IsClass semantic_aliases value aliases-AreClasses (λ same. (h ∙ same, full)))

IsClass-named :
    (value name : String) → class_of value ≡ name → IsClass name → IsClass (class_of value)
IsClass-named value name h named = subst IsClass (sym h) named

IsClass-self :
    (value : String) → (value ==ₛ "") ≡ false → class_of value ≡ value → IsClass (class_of value)
IsClass-self value full h = subst IsClass (sym h) (h, full)

named :
    (IsClass "reputation")
    × (IsClass "network_context")
    × (IsClass "exploitation")
    × (IsClass "exploit_probability")
    × (IsClass "vulnerability_metadata")
    × (IsClass "attack_knowledge")
    × (IsClass "scanner_activity")
    × (IsClass "tor_exit")
unfolding class_of
named = (
  (refl, refl),
  (refl, refl),
  (refl, refl),
  (refl, refl),
  (refl, refl),
  (refl, refl),
  (refl, refl),
  (refl, refl),
)

class_of-IsClass : (value : String) → (value ==ₛ "") ≡ false → IsClass (class_of value)
unfolding class_of
class_of-IsClass value full = elim (Bool-cases (is_listed value reputation_kinds)) [
  | inl there ↦ IsClass-named value "reputation" (rw (there, class_of) refl) named.0
  | inr h₀ ↦ elim (Bool-cases (is_listed value network_context_kinds)) [
    | inl there ↦ IsClass-named value "network_context" (rw (h₀, there, class_of) refl) named.1
    | inr h₁ ↦ elim (Bool-cases (is_listed value intelligence_kinds)) [
      | inl there ↦ IsClass-self value full (rw (h₀, h₁, there, class_of) refl)
      | inr h₂ ↦ elim (Bool-cases (value ==ₛ "known_exploited")) [
        | inl there ↦
            IsClass-named value "exploitation" (rw (h₀, h₁, h₂, there, class_of) refl) named.2
        | inr h₃ ↦ elim (Bool-cases (value ==ₛ "exploit_probability")) [
          | inl there ↦
              IsClass-named value "exploit_probability" (rw (h₀, h₁, h₂, h₃, there, class_of) refl)
                named.3
          | inr h₄ ↦ elim (Bool-cases (is_listed value vulnerability_kinds)) [
            | inl there ↦
                IsClass-named value "vulnerability_metadata"
                  (rw (h₀, h₁, h₂, h₃, h₄, there, class_of) refl) named.4
            | inr h₅ ↦ elim (Bool-cases (value ==ₛ "attack_knowledge")) [
              | inl there ↦
                  IsClass-named value "attack_knowledge"
                    (rw (h₀, h₁, h₂, h₃, h₄, h₅, there, class_of) refl) named.5
              | inr h₆ ↦ elim (Bool-cases (value ==ₛ "scanner_activity")) [
                | inl there ↦
                    IsClass-named value "scanner_activity"
                      (rw (h₀, h₁, h₂, h₃, h₄, h₅, h₆, there, class_of) refl) named.6
                | inr h₇ ↦ elim (Bool-cases (value ==ₛ "tor_exit")) [
                  | inl there ↦
                      IsClass-named value "tor_exit"
                        (rw (h₀, h₁, h₂, h₃, h₄, h₅, h₆, h₇, there, class_of) refl) named.7
                  | inr h₈ ↦
                      IsClass-alias value full
                        (rw (h₀, h₁, h₂, h₃, h₄, h₅, h₆, h₇, h₈, class_of) refl)
                ]
              ]
            ]
          ]
        ]
      ]
    ]
  ]
]

again-class :
    (value : String)
    → (value ==ₛ "") ≡ false
    → class_of (if class_of value ==ₛ "" then "unknown" else class_of value) ≡ class_of value
again-class value full = let c = class_of-IsClass value full in rw c.1 c.0

-- The class of a class is that class.
pub semantic_class_twice :
    (kind : Option String) → semantic_class (some (semantic_class kind)) ≡ semantic_class kind
unfolding semantic_class
semantic_class_twice none = again-class "unknown" refl
semantic_class_twice (some kind) = elim (Bool-cases (kind ==ₛ "")) [
  | inl blank ↦ rw blank (again-class "unknown" refl)
  | inr full ↦ rw full (again-class kind full)
]
