-- ===== src/Investigation/Freshness.antt =====
-- What a change makes stale: src/core/investigation/dependencies.js.
use para11ax.Common.{
  ℕ, ◌≡◌, refl, sym, ap, ◌∙◌, inl, inr, Bool, true, false, ◌&&◌, ◌||◌, Option, none, some, List, [],
  ◌∷◌, arith, ◌==◌, if◌then◌else◌, Bool-cases,
}
use para11ax.Investigation.{
  Artifact, relevance, hunt, result, disposition, report, service_now, Change,
  investigation_invalidation, artifact_order, place, same_artifact, includes, Reasons, set_reason,
  no_reasons, Stale, set_all, reasons_of, Investigation, mark, entry_of, listed,
  invalidate_investigation,
}

at_place : ℕ → Artifact
at_place n =
    if n == 0
    then relevance
    else if n == 1
    then hunt
    else if n == 2
    then result
    else if n == 3
    then disposition
    else if n == 4
    then report
    else service_now

at_place-place : (a : Artifact) → at_place (place a) ≡ a
unfolding at_place
at_place-place relevance = refl
at_place-place hunt = refl
at_place-place result = refl
at_place-place disposition = refl
at_place-place report = refl
at_place-place service_now = refl

pub same_artifact-eq : (a b : Artifact) → same_artifact a b ≡ true → a ≡ b
same_artifact-eq a b h =
    let e : place a ≡ place b = ground arith in
    sym (at_place-place a) ∙ ap at_place e ∙ at_place-place b

if_apply {ℓ} :
    {A : Type ℓ} (p : Bool) (f g : Artifact → A) (a : Artifact)
    → (if p then f else g) a ≡ (if p then f a else g a)
if_apply true f g a = refl
if_apply false f g a = refl

mark_test {ℓ} :
    {A : Type ℓ} (same later here there : Bool) (x y : A)
    → (same ≡ true → here ≡ there)
    → (if later && there then x else if here then (if same then x else y) else y)
      ≡ (if (same || later) && there then x else y)
mark_test true true true true x y h = refl
mark_test true false true true x y h = refl
mark_test true later false false x y h = ground arith
mark_test true later true false x y h = cc (h refl)
mark_test true later false true x y h = cc (h refl)
mark_test false true here true x y h = refl
mark_test false true true false x y h = refl
mark_test false true false false x y h = refl
mark_test false false true there x y h = refl
mark_test false false false there x y h = refl

reason-mark :
    (change : Change) (present : Artifact → Bool) (targets : List Artifact) (m : Reasons)
    (a : Artifact)
    → mark change present targets m a
      ≡ (if includes a targets && present a then some change else m a)
unfolding mark
reason-mark change present [] m a = refl
reason-mark change present (b ∷ bs) m a =
    reason-mark change present bs (if present b then set_reason b change m else m) a
    ∙ ap (λ old. if includes a bs && present a then some change else old)
        (if_apply (present b) (set_reason b change m) m a)
    ∙ mark_test (same_artifact b a) (includes a bs) (present b) (present a) (some change) (m a)
        (λ same. ap present (same_artifact-eq b a same))

abbrev or_reason : Option Change → Option Change → Option Change
or_reason none later = later
or_reason (some c) later = some c

abbrev added : Artifact → Option Change → Reasons → Reasons
added a none m = m
added a (some c) m = set_reason a c m

set_all-entry_of :
    (a : Artifact) (found : Option Change) (es : List Stale) (m : Reasons)
    → set_all (entry_of a found es) m ≡ set_all es (added a found m)
unfolding set_all
set_all-entry_of a none es m = refl
set_all-entry_of a (some c) es m = refl

added-reason :
    (a b : Artifact) (found : Option Change) (m : Reasons)
    → added a found m b ≡ (if same_artifact a b then or_reason found (m b) else m b)
added-reason a b none m = elim (Bool-cases (same_artifact a b)) [
  | inl same ↦ rw same refl
  | inr other ↦ rw other refl
]
added-reason a b (some c) m = refl

or_reason_again : (a y : Option Change) → or_reason a (or_reason a y) ≡ or_reason a y
or_reason_again none y = refl
or_reason_again (some c) y = refl

listed_test :
    (same later : Bool) (here there y : Option Change)
    → (same ≡ true → here ≡ there)
    → (let old = (if same then or_reason here y else y) in
        if later then or_reason there old else old)
      ≡ (if same || later then or_reason there y else y)
listed_test true true here there y h =
    ap (λ c. or_reason there (or_reason c y)) (h refl) ∙ or_reason_again there y
listed_test true false here there y h = ap (λ c. or_reason c y) (h refl)
listed_test false true here there y h = refl
listed_test false false here there y h = refl

set_all-listed :
    (as' : List Artifact) (m n : Reasons) (a : Artifact)
    → set_all (listed as' m) n a ≡ (if includes a as' then or_reason (m a) (n a) else n a)
unfolding set_all listed
set_all-listed [] m n a = refl
set_all-listed (b ∷ bs) m n a =
    ap (λ reasons. reasons a) (set_all-entry_of b (m b) (listed bs m) n)
    ∙ set_all-listed bs m (added b (m b) n) a
    ∙ ap (λ old. if includes a bs then or_reason (m a) old else old) (added-reason b a (m b) n)
    ∙ listed_test (same_artifact b a) (includes a bs) (m b) (m a) (n a)
        (λ same. ap m (same_artifact-eq b a same))

or_none : (a : Option Change) → or_reason a none ≡ a
or_none none = refl
or_none (some c) = refl

includes_all : (a : Artifact) → includes a artifact_order ≡ true
includes_all relevance = refl
includes_all hunt = refl
includes_all result = refl
includes_all disposition = refl
includes_all report = refl
includes_all service_now = refl

reasons_of-listed : (m : Reasons) (a : Artifact) → reasons_of (listed artifact_order m) a ≡ m a
reasons_of-listed m a =
    set_all-listed artifact_order m no_reasons a
    ∙ ap (λ p. if p then or_reason (m a) none else none) (includes_all a)
    ∙ or_none (m a)

-- After a change an artifact that is there and among the change's targets is stale by reason of the
-- change; any other artifact is stale just if it was, by the same reason.
pub reason-invalidate :
    (change : Change) (i : Investigation) (a : Artifact)
    → reasons_of (invalidate_investigation change i).stale a ≡ (
        if includes a (investigation_invalidation change) && i.workflow a
        then some change
        else reasons_of i.stale a)
unfolding invalidate_investigation
reason-invalidate change i a =
    reasons_of-listed
      (mark change i.workflow (investigation_invalidation change) (reasons_of i.stale)) a
    ∙ reason-mark change i.workflow (investigation_invalidation change) (reasons_of i.stale) a
