-- ===== src/Admission/Budget.antt =====
-- The token budget over a course of requests.
use mathlib.Core.Path.{subst}
use queue_as_a_service.Base.{
  ℕ, ◌+◌, ◌-◌, ◌≤◌, ◌<◌, ◌≡◌, refl, sym, ◌∙◌, min, List, [], ◌∷◌, ◌++◌, some, ite, dec_lt, ltb,
  arith, Bool-cases, Option-cases, inl, inr, ◌⊎◌, total, total-append,
}
use queue_as_a_service.Admission.{
  Cost, AdmissionConfig, UsageEntry, AdmissionController, admitted, denied, saturating_add,
  new_controller, evict_expired, sum_from, sum, admit_cost, try_admit,
}

module _ {F : Type 0} where
  abbrev pub all_tokens : List (UsageEntry F) → ℕ
  all_tokens = total (λ e. e.tokens)

  -- The tokens of the entries that are younger than the window.
  abbrev pub young_tokens : ℕ → ℕ → List (UsageEntry F) → ℕ
  young_tokens window now = total (λ e. ite (dec_lt (now - e.at) window) e.tokens 0)

  young_tokens-evict_expired :
      (window now later : ℕ) (es : List (UsageEntry F))
      → now ≤ later
      → young_tokens window later (evict_expired window now es) ≡ young_tokens window later es
  unfolding evict_expired
  young_tokens-evict_expired window now later [] h = refl
  young_tokens-evict_expired window now later (e ∷ es) h =
      ground (arith, young_tokens-evict_expired window now later es h)

  all_tokens-evict_expired :
      (window now : ℕ) (es : List (UsageEntry F))
      → all_tokens (evict_expired window now es) ≤ all_tokens es
  unfolding evict_expired
  all_tokens-evict_expired window now [] = omega arith
  all_tokens-evict_expired window now (e ∷ es) =
      ground (arith, all_tokens-evict_expired window now es)

  young_tokens_le :
      (window now : ℕ) (es : List (UsageEntry F)) → young_tokens window now es ≤ all_tokens es
  young_tokens_le window now [] = omega arith
  young_tokens_le window now (e ∷ es) = ground (arith, young_tokens_le window now es)

module _ {F : Type 0} (f : Cost F) where
  sum_from_tokens :
      (tokens : ℕ) (cost : F) (es : List (UsageEntry F))
      → tokens ≤ 18446744073709551615
      → (sum_from f (tokens, cost) es).0 ≡ min (tokens + all_tokens es) 18446744073709551615
  unfolding sum_from
  sum_from_tokens tokens cost [] h = omega (arith, h)
  sum_from_tokens tokens cost (e ∷ es) h =
      omega (
        arith,
        sum_from_tokens (saturating_add tokens e.tokens) (f.add cost e.cost) es (omega arith),
      )

  -- The sum of the tokens stops at the largest `u64`.
  pub sum_tokens :
      (es : List (UsageEntry F)) → (sum f es).0 ≡ min (all_tokens es) 18446744073709551615
  unfolding sum
  sum_tokens es = omega (arith, sum_from_tokens 0 f.zero es (omega arith))

  -- A controller and all requests that it ever admitted.
  abbrev pub Ledger : Type 0
  Ledger = AdmissionController F × List (UsageEntry F)

  unfoldable pub admit : UsageEntry F → Ledger → Ledger
  admit r (c, seen) =
      let (c', decision) = try_admit f r.at r.tokens r.cost c in
      elim decision [ admitted _ _ ↦ (c', seen ++ r ∷ []) | denied _ ↦ (c', seen) ]

  unfoldable pub admit_all : List (UsageEntry F) → Ledger → Ledger
  unfolding admit
  admit_all [] ledger = ledger
  admit_all (r ∷ rs) ledger = admit_all rs (admit r ledger)

  -- A request is admitted and recorded, or it is not and only old entries are gone.
  admit_cases :
      (r : UsageEntry F) (c : AdmissionController F) (seen : List (UsageEntry F)) (limit : ℕ)
      → c.config.tokens_per_window ≡ some limit
      → let live = evict_expired c.config.window r.at c.entries in
        (admit r (c, seen) ≡ (record c { entries = live }, seen))
        ⊎ ((admit r (c, seen) ≡ (record c { entries = live ++ r ∷ [] }, seen ++ r ∷ []))
            × (saturating_add (sum f live).0 r.tokens ≤ limit))
  unfolding admit try_admit admit_cost
  admit_cases r c seen limit h =
      let live = evict_expired c.config.window r.at c.entries in
      elim (Bool-cases (ltb limit (saturating_add (sum f live).0 r.tokens))) [
        | inl t ↦ inl (ground (arith, h, t))
        | inr t ↦ elim (Option-cases c.config.cost_ceiling_per_window) [
          | inl e ↦ inr (ground (arith, h, t, e), ground (arith, t))
          | inr (ceiling, e) ↦ elim (Bool-cases (f.exceeds (f.add (sum f live).1 r.cost) ceiling)) [
            | inl x ↦ inl (ground (arith, h, t, e, x))
            | inr x ↦ inr (ground (arith, h, t, e, x), ground (arith, t))
          ]
        ]
      ]

  -- The requests come in the order of the clock.
  abbrev pub Increases : ℕ → List (UsageEntry F) → Type 0
  Increases last [] = Unit
  Increases last (r ∷ rs) = (last ≤ r.at) × Increases r.at rs

  abbrev pub last_of : ℕ → List (UsageEntry F) → ℕ
  last_of last [] = last
  last_of last (r ∷ rs) = last_of r.at rs

  module _ (limit window : ℕ) where
    -- What was forgotten is too old to count.
    record IsAccounted (last : ℕ) (ledger : Ledger) : Type 0 where
      limited : ledger.0.config.tokens_per_window ≡ some limit
      windowed : ledger.0.config.window ≡ window
      remembers :
          (later : ℕ)
          → last ≤ later
          → young_tokens window later ledger.1 ≡ young_tokens window later ledger.0.entries
      bounded : all_tokens ledger.0.entries ≤ limit

    admit-IsAccounted :
        (last : ℕ) (r : UsageEntry F) (ledger : Ledger)
        → limit < 18446744073709551615
        → last ≤ r.at
        → IsAccounted last ledger
        → IsAccounted r.at (admit r ledger)
    admit-IsAccounted last r (c, seen) w h inv =
        let live = evict_expired c.config.window r.at c.entries in
        let shrinks = all_tokens-evict_expired c.config.window r.at c.entries in
        elim (admit_cases r c seen limit inv.limited) [
          | inl e ↦ subst (IsAccounted r.at) (sym e) (record {
            limited = inv.limited;
            windowed = inv.windowed;
            remembers = λ later l. inv.remembers later (omega (arith, h, l)) ∙ kept later l;
            bounded = omega (arith, shrinks, inv.bounded);
          })
          | inr (e, fits) ↦ subst (IsAccounted r.at) (sym e) (record {
            limited = inv.limited;
            windowed = inv.windowed;
            remembers = λ later l. omega (
              arith,
              inv.remembers later (omega (arith, h, l)),
              kept later l,
              total-append (λ e. ite (dec_lt (later - e.at) window) e.tokens 0) live (r ∷ []),
              total-append (λ e. ite (dec_lt (later - e.at) window) e.tokens 0) seen (r ∷ []),
            );
            bounded =
                omega (arith, fits, w, sum_tokens live, total-append (λ e. e.tokens) live (r ∷ []));
          })
        ]
      where
        kept :
            (later : ℕ)
            → r.at ≤ later
            → young_tokens window later c.entries
              ≡ young_tokens window later (evict_expired c.config.window r.at c.entries)
        kept later l =
            rw inv.windowed (sym (young_tokens-evict_expired window r.at later c.entries l))

    admit_all-IsAccounted :
        (last : ℕ) (rs : List (UsageEntry F)) (ledger : Ledger)
        → limit < 18446744073709551615
        → Increases last rs
        → IsAccounted last ledger
        → IsAccounted (last_of last rs) (admit_all rs ledger)
    unfolding admit_all
    admit_all-IsAccounted last [] ledger w h inv = inv
    admit_all-IsAccounted last (r ∷ rs) ledger w (h, hs) inv =
        admit_all-IsAccounted r.at rs (admit r ledger) w hs
          (admit-IsAccounted last r ledger w h inv)

  -- Of all requests that a new controller with a token ceiling below the largest `u64` admits in any
  -- course of requests in the order of the clock, those in a trailing window that ends at or after the last
  -- one have no more tokens than the ceiling.
  pub admit_all_bounded :
      (limit : ℕ) (config : AdmissionConfig F) (last : ℕ) (rs : List (UsageEntry F)) (later : ℕ)
      → config.tokens_per_window ≡ some limit
      → limit < 18446744073709551615
      → Increases last rs
      → last_of last rs ≤ later
      → young_tokens config.window later (admit_all rs (new_controller config, [])).1 ≤ limit
  unfolding new_controller
  admit_all_bounded limit config last rs later limited w h l =
      let inv =
        admit_all-IsAccounted limit config.window last rs (new_controller config, []) w h
          (record {
            limited = limited;
            windowed = refl;
            remembers = λ _ _. refl;
            bounded = omega arith;
          }) in
      omega (
        arith,
        inv.remembers later l,
        inv.bounded,
        young_tokens_le config.window later (admit_all rs (new_controller config, [])).0.entries,
      )
