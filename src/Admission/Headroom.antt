-- ===== src/Admission/Headroom.antt =====
-- A budget that is filled exactly.
use queue_as_a_service.Base.{
  ℕ, ◌≤◌, ◌<◌, ◌≡◌, refl, false, List, [], ◌∷◌, ◌++◌, Option, some, ltb, arith, Bool-cases,
  Option-cases, inl, inr, total-append,
}
use queue_as_a_service.Admission.{
  Cost, UsageEntry, AdmissionController, admitted, saturating_add, evict_expired, sum, admit_cost,
  try_admit, has_headroom,
}
use queue_as_a_service.Admission.Budget.{sum_tokens}

module _ {F : Type 0} (f : Cost F) where
  evict_again :
      (window now : ℕ) (es : List (UsageEntry F)) (r : UsageEntry F)
      → r.at ≡ now
      → 0 < window
      → evict_expired window now (evict_expired window now es ++ r ∷ [])
        ≡ evict_expired window now es ++ r ∷ []
  unfolding evict_expired
  evict_again window now [] r h w = ground (arith, h, w)
  evict_again window now (e ∷ es) r h w = ground (arith, evict_again window now es r h w)

  admitted_entries :
      (now tokens : ℕ) (cost : F) (c : AdmissionController F) (limit : ℕ) (left : Option F)
      → c.config.tokens_per_window ≡ some limit
      → (try_admit f now tokens cost c).1 ≡ admitted (some 0) left
      → let live = evict_expired c.config.window now c.entries in
        ((try_admit f now tokens cost c).0
          ≡ record c { entries = live ++ record { at = now; tokens = tokens; cost = cost } ∷ [] })
        × (limit ≤ saturating_add (sum f live).0 tokens)
  unfolding try_admit admit_cost
  admitted_entries now tokens cost c limit left e h =
      let live = evict_expired c.config.window now c.entries in
      elim (Bool-cases (ltb limit (saturating_add (sum f live).0 tokens))) [
        | inl t ↦ absurd (ground (arith, e, h, t))
        | inr t ↦ elim (Option-cases c.config.cost_ceiling_per_window) [
          | inl o ↦ (ground (arith, e, h, t, o), ground (arith, e, h, t, o))
          | inr (ceiling, o) ↦ elim (Bool-cases (f.exceeds (f.add (sum f live).1 cost) ceiling)) [
            | inl x ↦ absurd (ground (arith, e, h, t, o, x))
            | inr x ↦ (ground (arith, e, h, t, o, x), ground (arith, e, h, t, o, x))
          ]
        ]
      ]

  no_tokens_left :
      (now : ℕ) (c : AdmissionController F) (limit : ℕ) (es : List (UsageEntry F))
      → c.config.tokens_per_window ≡ some limit
      → evict_expired c.config.window now c.entries ≡ es
      → limit ≤ (sum f es).0
      → (has_headroom f now c).1 ≡ false
  unfolding has_headroom
  no_tokens_left now c limit es e live full = ground (arith, e, live, full)

  -- A request that takes the last token of a token budget with a window is admitted, and then there is no
  -- headroom at that time, although nothing was denied and the configuration is the same.
  pub has_headroom-try_admit :
      (now tokens : ℕ) (cost : F) (c : AdmissionController F) (limit : ℕ) (left : Option F)
      → c.config.tokens_per_window ≡ some limit
      → 0 < c.config.window
      → (try_admit f now tokens cost c).1 ≡ admitted (some 0) left
      → (has_headroom f now (try_admit f now tokens cost c).0).1 ≡ false
  has_headroom-try_admit now tokens cost c limit left e w h =
      let live = evict_expired c.config.window now c.entries in
      let r : UsageEntry F = record { at = now; tokens = tokens; cost = cost } in
      let (same, full) = admitted_entries now tokens cost c limit left e h in
      rw same (
        no_tokens_left now (record c { entries = live ++ r ∷ [] }) limit (live ++ r ∷ []) e
          (evict_again c.config.window now c.entries r refl w)
          (omega (
            arith,
            full,
            sum_tokens f live,
            sum_tokens f (live ++ r ∷ []),
            total-append (λ (e : UsageEntry F). e.tokens) live (r ∷ []),
          )))
