-- ===== src/Policy/Best.antt =====
-- The evaluation picks the best rule for every action.
use mathlib.Core.List.{Memᴰ}
use nuclei_dashboard.Base.{
  All, Bool, Bool-cases, List, Option, Option-cases, [], ap, arith, false, if◌then◌else◌, inl, inr,
  is_some, none, not, refl, some, subst, sym, true, ◌&&◌, ◌∙◌, ◌∷◌, ◌≡◌, ◌⊎◌,
}
use nuclei_dashboard.Base.Text.{Text}
use nuclei_dashboard.Policy.{ActionName, ActionValue, PolicyEvaluationContext, PolicyRule}
use nuclei_dashboard.Policy.Conditions.{all_match, scope_applies}
use nuclei_dashboard.Policy.Resolver.{
  PolicyEvaluation, Winner, consider, evaluate, evaluate_loop, no_winners, note_rule, outranks,
}
use nuclei_dashboard.Policy.Precedence.{
  lookup, offer_all-preferred, outranks_asym, outranks_irrefl, outranks_weak, preferred,
}

-- A predicate of all items holds of a member.
pub All-Memᴰ {ℓ κ} :
    {A : Type ℓ} (P : A → Type κ) (x : A) (xs : List A) → All P xs → Memᴰ x xs → P x
All-Memᴰ P x [] h m = elim m [ ]
All-Memᴰ P x (y ∷ ys) h (Memᴰ.head e) = subst P (sym e) h.0
All-Memᴰ P x (y ∷ ys) h (Memᴰ.tail m) = All-Memᴰ P x ys h.1 m

module _ (fnmatch : Text → Text → Bool) (context : PolicyEvaluationContext)
    (action : ActionName) where
  -- A rule that is in force, in scope, with matching conditions, and that names the action.
  unfoldable pub is_candidate_rule : PolicyRule → Bool
  unfolding scope_applies all_match
  is_candidate_rule rule =
      (not (is_some rule.archived_at) && rule.enabled)
      && ((scope_applies rule context && all_match fnmatch rule.conditions context)
          && is_some (lookup action rule.actions))

  -- The winner of the action is a candidate that no other outranks, with its value for the action;
  -- there is none where there is no candidate.
  abbrev pub IsBest : List PolicyRule → Option Winner → Type 0
  IsBest rules none = All (λ rule. is_candidate_rule rule ≡ false) rules
  IsBest rules (some winner) =
      Memᴰ winner.rule rules
      × (is_candidate_rule winner.rule ≡ true)
      × (lookup action winner.rule.actions ≡ some winner.value)
      × All (λ rule. is_candidate_rule rule ≡ true → outranks rule winner.rule ≡ false) rules

  step_winner : PolicyRule → Option Winner → Option Winner
  step_winner rule before =
      if (consider fnmatch rule context).matched
      then preferred rule (lookup action rule.actions) before
      else before

  fold_winner : List PolicyRule → Option Winner → Option Winner
  fold_winner [] before = before
  fold_winner (rule ∷ rules) before = fold_winner rules (step_winner rule before)

  note_rule-step_winner :
      (rule : PolicyRule) (state : PolicyEvaluation)
      → (note_rule rule (consider fnmatch rule context) state).winners action
        ≡ step_winner rule (state.winners action)
  unfolding note_rule step_winner
  note_rule-step_winner rule state =
      let p = offer_all-preferred rule rule.actions state.winners action in
      elim (Bool-cases (consider fnmatch rule context).matched) [
        | inl m ↦ rw m p
        | inr m ↦ rw m refl
      ]

  evaluate_loop-fold_winner :
      (rules : List PolicyRule) (state : PolicyEvaluation)
      → (evaluate_loop fnmatch rules context state).winners action
        ≡ fold_winner rules (state.winners action)
  unfolding evaluate_loop fold_winner
  evaluate_loop-fold_winner [] state = refl
  evaluate_loop-fold_winner (rule ∷ rules) state =
      evaluate_loop-fold_winner rules (note_rule rule (consider fnmatch rule context) state)
      ∙ ap (fold_winner rules) (note_rule-step_winner rule state)

  -- What a step does, by whether its rule is a candidate.
  step_winner_skips :
      (rule : PolicyRule) (before : Option Winner)
      → is_candidate_rule rule ≡ false
      → step_winner rule before ≡ before
  unfolding step_winner is_candidate_rule consider
  step_winner_skips rule before h = elim (Option-cases (lookup action rule.actions)) [
    | inl missing ↦ ground arith
    | inr there ↦ (let e = there.1 in ground arith)
  ]

  step_winner_offers :
      (rule : PolicyRule) (before : Option Winner)
      → is_candidate_rule rule ≡ true
      → (value : ActionValue) × (lookup action rule.actions ≡ some value)
        × (step_winner rule before ≡ preferred rule (some value) before)
  unfolding step_winner is_candidate_rule consider
  step_winner_offers rule before h = elim (Option-cases (lookup action rule.actions)) [
    | inl missing ↦ ground arith
    | inr there ↦ (there.0, there.1, (let e = there.1 in ground arith))
  ]

  -- The same as `IsBest`, with a winner before.
  abbrev BestFrom : List PolicyRule → Option Winner → Option Winner → Type 0
  BestFrom rules before none = (before ≡ none) × All (λ rule. is_candidate_rule rule ≡ false) rules
  BestFrom rules before (some winner) =
      ((before ≡ some winner)
        ⊎ (Memᴰ winner.rule rules
            × (is_candidate_rule winner.rule ≡ true)
            × (lookup action winner.rule.actions ≡ some winner.value)))
      × ((old : Winner) → before ≡ some old → outranks old.rule winner.rule ≡ false)
      × All (λ rule. is_candidate_rule rule ≡ true → outranks rule winner.rule ≡ false) rules

  -- The winner after a candidate was offered.
  preferred-some :
      (rule : PolicyRule) (value : ActionValue) (before : Option Winner)
      → (top : Winner) × (preferred rule (some value) before ≡ some top)
        × (((top.rule ≡ rule) × (top.value ≡ value)) ⊎ (before ≡ some top))
        × (outranks rule top.rule ≡ false)
        × ((old : Winner) → before ≡ some old → outranks old.rule top.rule ≡ false)
  preferred-some rule value none = (
    record { rule = rule; value = value; overrode = none },
    refl,
    inl (refl, refl),
    outranks_irrefl rule,
    λ old e. ground arith,
  )
  preferred-some rule value (some current) = elim (Bool-cases (outranks rule current.rule)) [
    | inl better ↦ (
      record { rule = rule; value = value; overrode = some (current.rule, current.value) },
      rw better refl,
      inl (refl, refl),
      outranks_irrefl rule,
      λ old e. (let a = outranks_asym rule current.rule better in ground arith),
    )
    | inr worse ↦ (
      current,
      rw worse refl,
      inr refl,
      worse,
      λ old e. (let a = outranks_irrefl current.rule in ground arith),
    )
  ]

  BestFrom-skipped :
      (rule : PolicyRule) (rules : List PolicyRule) (before o : Option Winner)
      → is_candidate_rule rule ≡ false
      → BestFrom rules before o
      → BestFrom (rule ∷ rules) before o
  BestFrom-skipped rule rules before none skipped h = (h.0, (skipped, h.1))
  BestFrom-skipped rule rules before (some winner) skipped h = (
    elim h.0 [ inl e ↦ inl e | inr m ↦ inr (Memᴰ.tail m.0, m.1, m.2) ],
    h.1,
    (λ c. ground arith, h.2),
  )

  BestFrom-offered :
      (rule : PolicyRule) (rules : List PolicyRule) (before o : Option Winner) (value : ActionValue)
      (top : Winner)
      → is_candidate_rule rule ≡ true
      → lookup action rule.actions ≡ some value
      → ((top.rule ≡ rule) × (top.value ≡ value)) ⊎ (before ≡ some top)
      → outranks rule top.rule ≡ false
      → ((old : Winner) → before ≡ some old → outranks old.rule top.rule ≡ false)
      → BestFrom rules (some top) o
      → BestFrom (rule ∷ rules) before o
  BestFrom-offered rule rules before none value top candidate named from over older h =
      let e = h.0 in ground arith
  BestFrom-offered rule rules before (some winner) value top candidate named from over older h =
      let under = h.1 top refl in
      (
        elim h.0 [
          | inl e ↦ (elim from [
            | inl own ↦ inr (Memᴰ.head (ground arith), ground arith, ground arith)
            | inr old ↦ inl (old ∙ e)
          ])
          | inr m ↦ inr (Memᴰ.tail m.0, m.1, m.2)
        ],
        λ old e. outranks_weak old.rule top.rule winner.rule (older old e) under,
        (λ c. outranks_weak rule top.rule winner.rule over under, h.2),
      )

  BestFrom-cons :
      (rule : PolicyRule) (rules : List PolicyRule) (before o : Option Winner)
      → BestFrom rules (step_winner rule before) o
      → BestFrom (rule ∷ rules) before o
  BestFrom-cons rule rules before o h = elim (Bool-cases (is_candidate_rule rule)) [
    | inl candidate ↦
        (let offered = step_winner_offers rule before candidate in
          let best = preferred-some rule offered.0 before in
          BestFrom-offered rule rules before o offered.0 best.0 candidate offered.1 best.2 best.3
            best.4 (subst (λ b. BestFrom rules b o) (offered.2 ∙ best.1) h))
    | inr skipped ↦
        BestFrom-skipped rule rules before o skipped
          (subst (λ b. BestFrom rules b o) (step_winner_skips rule before skipped) h)
  ]

  fold_winner-BestFrom :
      (rules : List PolicyRule) (before : Option Winner)
      → BestFrom rules before (fold_winner rules before)
  unfolding fold_winner
  fold_winner-BestFrom [] none = (refl, tt)
  fold_winner-BestFrom [] (some winner) =
      (inl refl, λ old e. (let a = outranks_irrefl winner.rule in ground arith), tt)
  fold_winner-BestFrom (rule ∷ rules) before =
      BestFrom-cons rule rules before (fold_winner rules (step_winner rule before))
        (fold_winner-BestFrom rules (step_winner rule before))

  BestFrom-IsBest :
      (rules : List PolicyRule) (o : Option Winner) → BestFrom rules none o → IsBest rules o
  BestFrom-IsBest rules none h = h.1
  BestFrom-IsBest rules (some winner) h = elim h.0 [
    | inl impossible ↦ ground arith
    | inr m ↦ (m.0, m.1, m.2, h.2)
  ]

  -- The winner of every action is the best of the rules that name it and match; there is none
  -- exactly where no rule that names it matches.
  pub evaluate-IsBest :
      (rules : List PolicyRule) → IsBest rules ((evaluate fnmatch rules context).winners action)
  unfolding evaluate no_winners
  evaluate-IsBest rules =
      let start : PolicyEvaluation = record {
        considered = [];
        matched_rules = [];
        winners = no_winners;
      } in
      subst (IsBest rules) (sym (evaluate_loop-fold_winner rules start))
        (BestFrom-IsBest rules (fold_winner rules none) (fold_winner-BestFrom rules none))
