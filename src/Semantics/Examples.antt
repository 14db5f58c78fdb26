-- ===== src/Semantics/Examples.antt =====
-- Classes and polarities of src/core/semantics.js.
use para11ax.Common.{◌≡◌, refl, none, some}
use para11ax.Semantics.{class_of, semantic_class, polarity, negative, absence}

no_kind : semantic_class none ≡ "unknown"
unfolding semantic_class class_of
no_kind = refl

alias_kind : semantic_class (some "reported_abuse") ≡ "abuse_reports"
unfolding semantic_class class_of
alias_kind = refl

clean_verdict : polarity (λ s. s) (some "clean") ≡ negative
unfolding polarity
clean_verdict = refl

absent_verdict : polarity (λ s. s) (some "not_found") ≡ absence
unfolding polarity
absent_verdict = refl
