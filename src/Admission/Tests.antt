-- ===== src/Admission/Tests.antt =====
-- Budgets on concrete inputs.
use queue_as_a_service.Base.{
  ◌≡◌, refl, false, ◌<◌, ℕ, ◌+◌, ◌-◌, ◌≤◌, ◌<◌, refl, false, [], ◌∷◌, none, some, arith, ltb, leb,
}
use queue_as_a_service.Admission.{
  Cost, AdmissionConfig, UsageEntry, new_controller, admitted, try_admit, admit_cost, evict_expired,
  sum, has_headroom,
}
use queue_as_a_service.Admission.Headroom.{has_headroom-try_admit}
use queue_as_a_service.Admission.Budget.{young_tokens, admit_all, admit_all_bounded}

-- Whole numbers in place of `f64`.
abbrev cost : Cost ℕ
cost = record {
  zero = 0;
  add = λ a b. a + b;
  sub = λ a b. a - b;
  exceeds = λ a b. ltb b a;
  is_at_most = λ a b. leb a b;
  is_below = λ a b. ltb a b;
}

abbrev config : AdmissionConfig ℕ
config = record { tokens_per_window = some 100; cost_ceiling_per_window = none; window = 10 }

abbrev request : ℕ → ℕ → UsageEntry ℕ
request now n = record { at = now; tokens = n; cost = 1 }

admit_all_bounded_example :
    young_tokens 10 18
      (admit_all cost
        (request 12 60 ∷ request 13 60 ∷ request 14 40 ∷ [])
        (new_controller config, [])).1
    ≤ 100
admit_all_bounded_example =
    admit_all_bounded cost 100 config 0 (request 12 60 ∷ request 13 60 ∷ request 14 40 ∷ []) 18 refl
      (omega arith) (omega arith, (omega arith, (omega arith, tt))) (omega arith)

limited : (new_controller config).config.tokens_per_window ≡ some 100
unfolding new_controller
limited = refl

windowed : 0 < (new_controller config).config.window
unfolding new_controller
windowed = omega arith

fills : (try_admit cost 5 100 1 (new_controller config)).1 ≡ admitted (some 0) none
unfolding try_admit admit_cost evict_expired sum new_controller
fills = refl

has_headroom-try_admit_example :
    (has_headroom cost 5 (try_admit cost 5 100 1 (new_controller config)).0).1 ≡ false
has_headroom-try_admit_example =
    has_headroom-try_admit cost 5 100 1 (new_controller config) 100 none limited windowed fills
