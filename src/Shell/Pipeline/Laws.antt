-- ===== src/Shell/Pipeline/Laws.antt =====
-- `splitPipeline` of app/shell-core/parser.js and the joining of stages by `|`, and what the parser lets
-- through.
use para11ax.JsText.{Text, same_text}
use para11ax.JsText.Laws.{same_text-eq}
use para11ax.Common.{
  ℕ, ◌≤◌, ◌≡◌, refl, sym, ap, ◌∙◌, subst, ◌⊎◌, inl, inr, false, List, [], ◌∷◌, ◌++◌, arith, ltb,
  Bool-cases, ltb→le, ltb-false, length, All, All-append, append_nil, append_snoc,
}
use para11ax.Shell.{pipe_token, ok, Parsed, Refusal, refused}
use para11ax.Shell.Pipeline.{split_from, split_pipeline, within_limit}

-- The tokens of the stages, with `|` between them.
abbrev pub join_from : List Text → List (List Text) → List Text
join_from stage [] = stage
join_from stage (next ∷ stages) = stage ++ pipe_token ∷ join_from next stages

abbrev pub join : List (List Text) → List Text
join [] = []
join (stage ∷ stages) = join_from stage stages

-- Not empty, and without the token `|`.
abbrev pub IsStage : List Text → Type 0
IsStage [] = ⊥
IsStage (t ∷ ts) = All (λ u. same_text u pipe_token ≡ false) (t ∷ ts)

abbrev IsFree : Text → Type 0
IsFree u = same_text u pipe_token ≡ false

-- The loop takes in tokens that are not `|`.
split_from-append :
    (us ts : List Text) (stages : List (List Text)) (current : List Text)
    → All IsFree us
    → split_from (us ++ ts) stages current ≡ split_from ts stages (current ++ us)
unfolding split_from
split_from-append [] ts stages current free = ap (split_from ts stages) (sym (append_nil current))
split_from-append (u ∷ us) ts stages current free = rw free.0 (
    split_from-append us ts stages (current ++ u ∷ []) free.1
    ∙ ap (split_from ts stages) (append_snoc current u us))

split_from-end :
    (stage : List Text) (stages : List (List Text))
    → IsStage stage
    → split_from [] stages stage ≡ ok (stages ++ stage ∷ [])
unfolding split_from
split_from-end [] stages h = elim h [ ]
split_from-end (t ∷ ts) stages h = refl

split_from-pipe :
    (stage rest : List Text) (stages : List (List Text))
    → IsStage stage
    → split_from (pipe_token ∷ rest) stages stage ≡ split_from rest (stages ++ stage ∷ []) []
unfolding split_from
split_from-pipe [] rest stages h = elim h [ ]
split_from-pipe (t ∷ ts) rest stages h = refl

IsStage-IsFree : (stage : List Text) → IsStage stage → All IsFree stage
IsStage-IsFree [] h = elim h [ ]
IsStage-IsFree (t ∷ ts) h = h

split_from-join_from :
    (stage : List Text) (later done : List (List Text))
    → IsStage stage
    → All IsStage later
    → split_from (join_from stage later) done [] ≡ ok (done ++ stage ∷ later)
split_from-join_from stage [] done h hs =
    ap (λ us. split_from us done []) (sym (append_nil stage))
    ∙ split_from-append stage [] done [] (IsStage-IsFree stage h)
    ∙ split_from-end stage done h
split_from-join_from stage (next ∷ later) done h hs =
    split_from-append stage (pipe_token ∷ join_from next later) done [] (IsStage-IsFree stage h)
    ∙ split_from-pipe stage (join_from next later) done h
    ∙ split_from-join_from next later (done ++ stage ∷ []) hs.0 hs.1
    ∙ ap ok (append_snoc done stage (next ∷ later))

split_pipeline-first :
    (limit : ℕ) (tokens : List Text) (stages : List (List Text))
    → split_from tokens [] [] ≡ ok stages
    → length stages ≤ limit
    → split_pipeline limit tokens ≡ ok stages
unfolding split_pipeline split_from
split_pipeline-first limit [] stages h fits = cc
split_pipeline-first limit (t ∷ ts) stages h fits =
    rw h (rw (ltb-false limit (length stages) fits) refl)

-- Stages that are not empty and within the limit, and whose tokens are not `|`, come back from the list of
-- their tokens with `|` between them.
pub split_pipeline-join :
    (limit : ℕ) (first : List Text) (later : List (List Text))
    → All IsStage (first ∷ later)
    → length (first ∷ later) ≤ limit
    → split_pipeline limit (join (first ∷ later)) ≡ ok (first ∷ later)
split_pipeline-join limit first later h fits =
    split_pipeline-first limit (join (first ∷ later)) (first ∷ later)
      (split_from-join_from first later [] h.0 h.1) fits

-- What the loop makes of tokens: `done` and the stages that the tokens are joined of.
record IsSplit (done : List (List Text)) (tokens : List Text) (stages : List (List Text))
    : Type 0 where
  first : List Text
  later : List (List Text)
  made : stages ≡ done ++ first ∷ later
  joined : join_from first later ≡ tokens
  proper : All IsStage (first ∷ later)

pub ok_eq {ℓ} : {A : Type ℓ} (a b : A) → ok a ≡ ok b → a ≡ b
ok_eq a b h = cc

append-IsFree :
    (current : List Text) (t : Text)
    → All IsFree current
    → same_text t pipe_token ≡ false
    → All IsFree (current ++ t ∷ [])
append-IsFree current t h free = All-append IsFree current (t ∷ []) h (free, tt)

split_from-IsSplit :
    (ts : List Text) (done stages : List (List Text)) (current : List Text)
    → All IsFree current
    → split_from ts done current ≡ ok stages
    → IsSplit done (current ++ ts) stages
unfolding split_from
split_from-IsSplit [] done stages [] free h = cc
split_from-IsSplit [] done stages (c ∷ cs) free h = record {
  first = c ∷ cs;
  later = [];
  made = sym (ok_eq _ _ h);
  joined = sym (append_nil (c ∷ cs));
  proper = (free, tt);
}
split_from-IsSplit (t ∷ ts) done stages [] free h = elim (Bool-cases (same_text t pipe_token)) [
  | inl is_pipe ↦ cc (rw is_pipe at h)
  | inr no_pipe ↦ split_from-IsSplit ts done stages (t ∷ []) (no_pipe, tt) (rw no_pipe at h)
]
split_from-IsSplit (t ∷ ts) done stages (c ∷ cs) free h =
    elim (Bool-cases (same_text t pipe_token)) [
      | inl is_pipe ↦
          let split =
            split_from-IsSplit ts (done ++ (c ∷ cs) ∷ []) stages [] tt (rw is_pipe at h) in
          let a_pipe : t ≡ pipe_token = same_text-eq t pipe_token is_pipe in
          record {
            first = c ∷ cs;
            later = split.first ∷ split.later;
            made = split.made ∙ append_snoc done (c ∷ cs) (split.first ∷ split.later);
            joined =
                ap (λ us. (c ∷ cs) ++ pipe_token ∷ us) split.joined
                ∙ ap (λ u. (c ∷ cs) ++ u ∷ ts) (sym a_pipe);
            proper = (free, split.proper);
          }
      | inr no_pipe ↦
          subst (λ us. IsSplit done us stages) (append_snoc (c ∷ cs) t ts)
            (split_from-IsSplit ts done stages (c ∷ cs ++ t ∷ [])
              (append-IsFree (c ∷ cs) t free no_pipe) (rw no_pipe at h))
    ]

within_limit-eq :
    (limit : ℕ) (found stages : List (List Text))
    → within_limit limit found ≡ ok stages
    → (found ≡ stages) × length found ≤ limit
within_limit-eq limit found stages h = elim (Bool-cases (ltb limit (length found))) [
  | inl over ↦ cc (rw over at h)
  | inr fits ↦ (ok_eq _ _ (rw fits at h), ltb→le _ _ fits)
]

-- The stages that a list of tokens is split into.
pub record IsPipeline (limit : ℕ) (tokens : List Text) (stages : List (List Text)) : Type 0 where
  pub joined : join stages ≡ tokens
  pub proper : All IsStage stages
  pub within : length stages ≤ limit

pub bind-cases {ℓ} :
    {A : Type ℓ} (p : Parsed A) → ((a : A) × (p ≡ ok a)) ⊎ ((r : Refusal) × (p ≡ refused r))
bind-cases (ok a) = inl (a, refl)
bind-cases (refused r) = inr (r, refl)

-- If the tokens split into stages, joining the stages by `|` gives the tokens, no stage is empty or has
-- the token `|`, and there are no more stages than the limit.
pub split_pipeline-IsPipeline :
    (limit : ℕ) (tokens : List Text) (stages : List (List Text))
    → split_pipeline limit tokens ≡ ok stages
    → IsPipeline limit tokens stages
unfolding split_pipeline
split_pipeline-IsPipeline limit [] stages h =
    subst (IsPipeline limit []) (ok_eq _ _ h)
      (record { joined = refl; proper = tt; within = omega arith })
split_pipeline-IsPipeline limit (t ∷ ts) stages h = elim (bind-cases (split_from (t ∷ ts) [] [])) [
  | inr (r, refuses) ↦ cc (rw refuses at h)
  | inl (found, splits) ↦
      let (e, fits) = within_limit-eq limit found stages (rw splits at h) in
      let split = split_from-IsSplit (t ∷ ts) [] found [] tt splits in
      subst (IsPipeline limit (t ∷ ts)) e (record {
        joined = ap join split.made ∙ split.joined;
        proper = subst (All IsStage) (sym split.made) split.proper;
        within = fits;
      })
]
