-- ===== src/Quota/Window.antt =====
-- The sliding window of a quota over a course of calls.
use queue_as_a_service.Base.{
  ℕ, ◌-◌, ◌≤◌, ◌<◌, ◌≡◌, refl, ap, ◌∙◌, min, List, [], ◌∷◌, ◌++◌, some, ite, dec_lt, length,
  length-append, leb, arith, Bool-cases, inl, inr, All, total, total-append,
}
use queue_as_a_service.Quota.{
  QuotaConfig, TenantQuota, allowed, denied, evict_expired, count, try_acquire, new_quota,
}

-- The times are in the order of the clock, and none is after `now`.
pub data IsOrdered (now : ℕ) : List ℕ → Type 0 where
  none_yet : IsOrdered now []
  earlier :
      {t : ℕ} {ts : List ℕ}
      → t ≤ now
      → All (λ s. t ≤ s) ts
      → IsOrdered now ts
      → IsOrdered now (t ∷ ts)

-- The number of requests that are younger than the window.
abbrev pub young : ℕ → ℕ → List ℕ → ℕ
young window now = total (λ t. ite (dec_lt (now - t) window) 1 0)

young-All :
    (window now front : ℕ) (ts : List ℕ)
    → now - front < window
    → All (λ s. front ≤ s) ts
    → young window now ts ≡ length ts
young-All window now front [] h a = refl
young-All window now front (t ∷ ts) h (a, rest) =
    ground (arith, young-All window now front ts h rest)

-- If the times are in the order of the clock and none is in the future, eviction leaves as many requests
-- as are inside the window.
pub length-evict_expired :
    (window now : ℕ) (ts : List ℕ)
    → IsOrdered now ts
    → length (evict_expired window now ts) ≡ young window now ts
unfolding evict_expired
length-evict_expired window now [] o = refl
length-evict_expired window now (t ∷ ts) (earlier h a o) =
    ground (arith, length-evict_expired window now ts o, young-All window now t ts)

-- What is evicted is never looked at again.
young-evict_expired :
    (window now later : ℕ) (ts : List ℕ)
    → now ≤ later
    → young window later (evict_expired window now ts) ≡ young window later ts
unfolding evict_expired
young-evict_expired window now later [] h = refl
young-evict_expired window now later (t ∷ ts) h =
    ground (arith, young-evict_expired window now later ts h)

length-evict_expired_le :
    (window now : ℕ) (ts : List ℕ) → length (evict_expired window now ts) ≤ length ts
unfolding evict_expired
length-evict_expired_le window now [] = omega arith
length-evict_expired_le window now (t ∷ ts) = ground (arith, length-evict_expired_le window now ts)

young_le : (window now : ℕ) (ts : List ℕ) → young window now ts ≤ length ts
young_le window now [] = omega arith
young_le window now (t ∷ ts) = ground (arith, young_le window now ts)

-- A quota and the times of all requests that it ever allowed.
abbrev pub Ledger : Type 0
Ledger = TenantQuota × List ℕ

unfoldable pub acquire : ℕ → Ledger → Ledger
acquire now (q, seen) =
    let (q', decision) = try_acquire now q in
    elim decision [ allowed _ ↦ (q', seen ++ now ∷ []) | denied _ ↦ (q', seen) ]

unfoldable pub acquire_all : List ℕ → Ledger → Ledger
unfolding acquire
acquire_all [] ledger = ledger
acquire_all (now ∷ nows) ledger = acquire_all nows (acquire now ledger)

-- The times of the calls are in the order of the clock.
abbrev pub Increases : ℕ → List ℕ → Type 0
Increases last [] = Unit
Increases last (now ∷ nows) = (last ≤ now) × Increases now nows

abbrev pub last_of : ℕ → List ℕ → ℕ
last_of last [] = last
last_of last (now ∷ nows) = last_of now nows

acquire_config : (now : ℕ) (ledger : Ledger) → (acquire now ledger).0.config ≡ ledger.0.config
unfolding acquire try_acquire
acquire_config now (q, seen) = ground arith

acquire_all_config :
    (nows : List ℕ) (ledger : Ledger) → (acquire_all nows ledger).0.config ≡ ledger.0.config
unfolding acquire_all
acquire_all_config [] ledger = refl
acquire_all_config (now ∷ nows) ledger =
    acquire_all_config nows (acquire now ledger) ∙ acquire_config now ledger

module _ (limit : ℕ) where
  -- The requests that were forgotten are too old to count.
  record IsAccounted (last : ℕ) (ledger : Ledger) : Type 0 where
    limited : ledger.0.config.requests_per_window ≡ some limit
    remembers :
        (later : ℕ)
        → last ≤ later
        → young ledger.0.config.window later ledger.1
          ≡ young ledger.0.config.window later ledger.0.requests
    bounded : length ledger.0.requests ≤ limit

  acquire-IsAccounted :
      (last now : ℕ) (ledger : Ledger)
      → limit < 18446744073709551616
      → last ≤ now
      → IsAccounted last ledger
      → IsAccounted now (acquire now ledger)
  unfolding acquire try_acquire count
  acquire-IsAccounted last now (q, seen) w h inv =
      let live = evict_expired q.config.window now q.requests in
      let shrinks = length-evict_expired_le q.config.window now q.requests in
      let kept = λ (later : ℕ) (l : now ≤ later).
        young-evict_expired q.config.window now later q.requests l in
      elim (Bool-cases (leb limit (min (length live) 18446744073709551615))) [
        | inl t ↦ record {
          limited = ground (arith, t, inv.limited);
          remembers = λ later l.
              ground
                (arith, t, inv.limited, kept later l, inv.remembers later (omega (arith, h, l)));
          bounded = ground (arith, t, inv.limited, shrinks, inv.bounded);
        }
        | inr t ↦ record {
          limited = ground (arith, t, inv.limited);
          remembers = λ later l. ground (
            arith,
            t,
            inv.limited,
            kept later l,
            inv.remembers later (omega (arith, h, l)),
            total-append (λ s. ite (dec_lt (later - s) q.config.window) 1 0) live (now ∷ []),
            total-append (λ s. ite (dec_lt (later - s) q.config.window) 1 0) seen (now ∷ []),
          );
          bounded = ground (arith, t, inv.limited, w, length-append live (now ∷ []));
        }
      ]

  acquire_all-IsAccounted :
      (last : ℕ) (nows : List ℕ) (ledger : Ledger)
      → limit < 18446744073709551616
      → Increases last nows
      → IsAccounted last ledger
      → IsAccounted (last_of last nows) (acquire_all nows ledger)
  unfolding acquire_all
  acquire_all-IsAccounted last [] ledger w h inv = inv
  acquire_all-IsAccounted last (now ∷ nows) ledger w (h, hs) inv =
      acquire_all-IsAccounted now nows (acquire now ledger) w hs
        (acquire-IsAccounted last now ledger w h inv)

  -- Of all requests that a quota with a ceiling, a `u64`, allows in any course of calls in the order of
  -- the clock, no trailing window that ends after the last call has more than the ceiling.
  pub acquire_all_bounded :
      (config : QuotaConfig) (last : ℕ) (nows : List ℕ) (later : ℕ)
      → config.requests_per_window ≡ some limit
      → limit < 18446744073709551616
      → Increases last nows
      → last_of last nows ≤ later
      → young config.window later (acquire_all nows (new_quota config, [])).1 ≤ limit
  unfolding new_quota
  acquire_all_bounded config last nows later limited w h l =
      let inv =
        acquire_all-IsAccounted last nows (new_quota config, []) w h
          (record { limited = limited; remembers = λ _ _. refl; bounded = omega arith }) in
      let window = acquire_all_config nows (new_quota config, []) in
      let final = acquire_all nows (new_quota config, []) in
      omega (
        arith,
        ap (λ c. young c.window later final.1) window,
        inv.remembers later l,
        inv.bounded,
        young_le final.0.config.window later final.0.requests,
      )
