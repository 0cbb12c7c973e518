-- ===== src/Admission.antt =====
-- Token and cost budgets of a queue, crates/qaas-core/src/admission.rs: a sliding window over what was
-- admitted. A method takes the reading of the clock, in nanoseconds, as an argument. Costs are `f64`, a
-- parameter; the text of a refusal is not modelled.
pub mod Budget
pub mod Headroom
pub mod Tests
use queue_as_a_service.Base.{
  ℕ, ◌+◌, ◌-◌, min, Bool, true, false, ◌&&◌, List, [], ◌∷◌, ◌++◌, Option, none, some, ite, dec_le,
  leb, ltb, if◌then◌else◌,
}

-- The operations of `f64` that the module uses; `exceeds` is `>`.
pub record Cost (F : Type 0) : Type 0 where
  pub zero : F
  pub add : F → F → F
  pub sub : F → F → F
  pub exceeds : F → F → Bool
  pub is_at_most : F → F → Bool
  pub is_below : F → F → Bool

pub record AdmissionConfig (F : Type 0) : Type 0 where
  pub tokens_per_window : Option ℕ
  pub cost_ceiling_per_window : Option F
  pub window : ℕ

unfoldable pub unlimited : {F : Type 0} → AdmissionConfig F
unlimited = record {
  tokens_per_window = none;
  cost_ceiling_per_window = none;
  window = 3600000000000;
}

pub record UsageEntry (F : Type 0) : Type 0 where
  pub at : ℕ
  pub tokens : ℕ
  pub cost : F

pub record UsageSnapshot (F : Type 0) : Type 0 where
  pub tokens_used : ℕ
  pub cost_used : F

pub data AdmissionDecision (F : Type 0) : Type 0 where
  admitted : Option ℕ → Option F → AdmissionDecision F
  denied : Option ℕ → AdmissionDecision F

pub record AdmissionController (F : Type 0) : Type 0 where
  pub config : AdmissionConfig F
  pub entries : List (UsageEntry F)

-- `u64::saturating_add`.
abbrev pub saturating_add : ℕ → ℕ → ℕ
saturating_add a b = min (a + b) 18446744073709551615

module _ {F : Type 0} where
  unfoldable pub new_controller : AdmissionConfig F → AdmissionController F
  new_controller config = record { config = config; entries = [] }

  unfoldable pub set_config : AdmissionConfig F → AdmissionController F → AdmissionController F
  set_config config c = record c { config = config }

  unfoldable pub evict_expired : ℕ → ℕ → List (UsageEntry F) → List (UsageEntry F)
  evict_expired window now [] = []
  evict_expired window now (front ∷ rest) =
      ite (dec_le window (now - front.at)) (evict_expired window now rest) (front ∷ rest)

  unfoldable pub retry_after : ℕ → ℕ → List (UsageEntry F) → ℕ
  retry_after window now [] = 0
  retry_after window now (oldest ∷ rest) = window - (now - oldest.at)

module _ {F : Type 0} (f : Cost F) where
  open f use {zero, add, sub, exceeds, is_at_most, is_below}

  -- The fold from what was summed so far.
  unfoldable pub sum_from : ℕ × F → List (UsageEntry F) → ℕ × F
  sum_from used [] = used
  sum_from (tokens, cost) (e ∷ es) = sum_from (saturating_add tokens e.tokens, add cost e.cost) es

  unfoldable pub sum : List (UsageEntry F) → ℕ × F
  unfolding sum_from
  sum entries = sum_from (0, zero) entries

  unfoldable pub usage : ℕ → AdmissionController F → AdmissionController F × UsageSnapshot F
  unfolding sum
  usage now c =
      let live = evict_expired c.config.window now c.entries in
      let (tokens, cost) = sum live in
      (record c { entries = live }, record { tokens_used = tokens; cost_used = cost })

  unfoldable pub has_headroom : ℕ → AdmissionController F → AdmissionController F × Bool
  unfolding sum
  has_headroom now c =
      let live = evict_expired c.config.window now c.entries in
      let (tokens, cost) = sum live in
      let tokens_ok : Bool = elim c.config.tokens_per_window [
        | none ↦ true
        | some limit ↦ ltb tokens limit
      ] in
      let cost_ok : Bool = elim c.config.cost_ceiling_per_window [
        | none ↦ true
        | some ceiling ↦ is_below cost ceiling
      ] in
      (record c { entries = live }, tokens_ok && cost_ok)

  -- The refusal of a request for its cost, or its admission.
  unfoldable pub admit_cost :
      ℕ → ℕ → F → ℕ × F → AdmissionController F → AdmissionController F × AdmissionDecision F
  admit_cost now tokens cost (tokens_used, cost_used) c =
      let projected_tokens = saturating_add tokens_used tokens in
      let projected_cost = add cost_used cost in
      let entry : UsageEntry F = record { at = now; tokens = tokens; cost = cost } in
      let left : Option ℕ = elim c.config.tokens_per_window [
        | none ↦ none
        | some limit ↦ some (limit - projected_tokens)
      ] in
      let recorded : AdmissionController F = record c { entries = c.entries ++ entry ∷ [] } in
      elim c.config.cost_ceiling_per_window [
        | none ↦ (recorded, admitted left none)
        | some ceiling ↦
            let after =
              if is_at_most cost ceiling
              then some (retry_after c.config.window now c.entries)
              else none in
            if exceeds projected_cost ceiling
            then (c, denied after)
            else (recorded, admitted left (some (sub ceiling projected_cost)))
      ]

  unfoldable pub try_admit :
      ℕ → ℕ → F → AdmissionController F → AdmissionController F × AdmissionDecision F
  unfolding sum admit_cost
  try_admit now tokens cost c =
      let live = evict_expired c.config.window now c.entries in
      let evicted : AdmissionController F = record c { entries = live } in
      let used = sum live in
      let decided = admit_cost now tokens cost used evicted in
      elim c.config.tokens_per_window [
        | none ↦ decided
        | some limit ↦
            let after =
              if leb tokens limit then some (retry_after c.config.window now live) else none in
            if ltb limit (saturating_add used.0 tokens) then (evicted, denied after) else decided
      ]
