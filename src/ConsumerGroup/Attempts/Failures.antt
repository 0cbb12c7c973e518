-- ===== src/ConsumerGroup/Attempts/Failures.antt =====
-- Delivery counts through failed deliveries, and through the parts of a round of claim.
use queue_as_a_service.Base.{
  ℕ, ◌+◌, ◌≤◌, ◌<◌, ◌≡◌, refl, true, false, Bool, List, [], ◌∷◌, Option, some, arith, ℕ_discrete,
  Map, get, insert, remove, All, All-append, Option-cases, Bool-cases, inl, inr, u32, ◌==◌, leb,
}
use queue_as_a_service.Log.{Result, ok, failed}
use queue_as_a_service.Types.{MessageId, Text}
use queue_as_a_service.Retry.{Float, is_exhausted}
use queue_as_a_service.ConsumerGroup.State.{
  Pending, Leased, LeaseToken, Claim, Group, notify_one, notify_waiters,
}
use queue_as_a_service.ConsumerGroup.Resolve.{Attempt, nack, resolve_failed_delivery, delayed_of}
use queue_as_a_service.ConsumerGroup.Claiming.{
  claimed, lease_first, reclaim_expired_leases, resolve_expired, expired, unexpired,
  promote_ready_delayed, timed_out,
}
use queue_as_a_service.ConsumerGroup.Attempts.{
  IsWithin, same-IsWithin, get-IsWithin, remove-IsWithin, expired-IsWithin, unexpired-IsWithin,
  ready-IsWithin, still_delayed-IsWithin,
}

module _ {F T V : Type 0} (float : Float F) (m : ℕ) where
  -- A delivery that fails is the last one if it is the one numbered `m`.
  pub resolve-IsWithin :
      (attempt : Attempt F) (reason : Option Text) (id : MessageId) (lease : Leased T V)
      (g : Group F T V)
      → lease.delivery_count ≤ m
      → IsWithin m g
      → IsWithin m (resolve_failed_delivery float attempt reason id lease g).0
  unfolding resolve_failed_delivery is_exhausted delayed_of
  resolve-IsWithin attempt reason id lease g few w =
      elim (Bool-cases (leb m lease.delivery_count)) [
        | inl last ↦
            let is_last : is_exhausted g.retry_policy lease.delivery_count ≡ true =
              ground (arith, w.policy, last) in
            same-IsWithin m g _ w (ground (arith, is_last)) (ground (arith, is_last))
              (ground (arith, is_last)) (ground (arith, is_last))
        | inr more ↦
            let goes_on : is_exhausted g.retry_policy lease.delivery_count ≡ false =
              ground (arith, w.policy, more) in
            rw (goes_on, resolve_failed_delivery)
              (record {
                policy = w.policy;
                pending = w.pending;
                leased = w.leased;
                delayed = All-append _ g.delayed _ w.delayed (ground (arith, more), tt);
              })
      ]

  pub nack-IsWithin :
      (attempt : Attempt F) (id : MessageId) (token : LeaseToken) (reason : Option Text)
      (g : Group F T V)
      → IsWithin m g
      → IsWithin m (nack float attempt id token reason g).0
  unfolding nack
  nack-IsWithin attempt id token reason g w = elim (Option-cases (get ℕ_discrete id g.leased)) [
    | inl e ↦ rw (e, nack) w
    | inr (lease, e) ↦ elim (Bool-cases (lease.token == token)) [
      | inr other ↦ rw (e, nack) (rw other w)
      | inl is ↦
          let without : Group F T V = record g { leased = remove ℕ_discrete id g.leased } in
          let w' : IsWithin m without = record {
            policy = w.policy;
            pending = w.pending;
            leased = remove-IsWithin m id g.leased w.leased;
            delayed = w.delayed;
          } in
          rw (e, nack)
            (rw is (
              released (resolve_failed_delivery float attempt reason id lease without).1 _ (
                resolve-IsWithin attempt reason id lease without
                  (get-IsWithin m id g.leased lease w.leased e) w')))
    ]
  ]
    where
      released :
          (x : Result (Unit {0})) (h : Group F T V)
          → IsWithin m h
          → IsWithin m
              (elim x as (λ _. Group F T V × Result Bool) [
                | failed ↦ (h, failed)
                | ok _ ↦ (record h { signals = notify_one ∷ h.signals }, ok true)
              ]).0
      released failed h k = k
      released (ok _) h k = same-IsWithin m h _ k refl refl refl refl

  pub resolve_expired-IsWithin :
      (attempts : MessageId → Attempt F) (ls : Map MessageId (Leased T V)) (g : Group F T V)
      → All (λ e. e.1.delivery_count ≤ m) ls
      → IsWithin m g
      → IsWithin m (resolve_expired float attempts ls g)
  unfolding resolve_expired
  resolve_expired-IsWithin attempts [] g h w = w
  resolve_expired-IsWithin attempts ((id, lease) ∷ ls) g (h, hs) w =
      resolve_expired-IsWithin attempts ls _ hs
        (resolve-IsWithin (attempts id) (some timed_out) id lease g h w)

  pub reclaim-IsWithin :
      (now : ℕ) (attempts : MessageId → Attempt F) (g : Group F T V)
      → IsWithin m g
      → IsWithin m (reclaim_expired_leases float now attempts g)
  unfolding reclaim_expired_leases
  reclaim-IsWithin now attempts g w =
      go (expired now g.leased) (expired-IsWithin m now g.leased w.leased)
    where
      go :
          (ls : Map MessageId (Leased T V))
          → All (λ e. e.1.delivery_count ≤ m) ls
          → IsWithin m (elim ls as (λ _. Group F T V) [
            | [] ↦ g
            | l ∷ ls ↦
                let g' =
                  resolve_expired float attempts
                    (l ∷ ls)
                    (record g { leased = unexpired now g.leased }) in
                record g' { signals = notify_waiters ∷ g'.signals }
          ])
      go [] h = w
      go (l ∷ ls) h =
          same-IsWithin m _ _
            (resolve_expired-IsWithin attempts (l ∷ ls) _ h (record {
              policy = w.policy;
              pending = w.pending;
              leased = unexpired-IsWithin m now g.leased w.leased;
              delayed = w.delayed;
            }))
            refl refl refl refl

  pub promote-IsWithin :
      (now : ℕ) (g : Group F T V) → IsWithin m g → IsWithin m (promote_ready_delayed now g)
  unfolding promote_ready_delayed
  promote-IsWithin now g w = record {
    policy = w.policy;
    pending = All-append _ g.pending _ w.pending (ready-IsWithin m now g.delayed w.delayed);
    leased = w.leased;
    delayed = still_delayed-IsWithin m now g.delayed w.delayed;
  }

  pub lease-IsWithin :
      (to_text : MessageId → Text) (now : ℕ) (g : Group F T V) (ps : List (Pending T V))
      → g.pending ≡ ps
      → m < 4294967296
      → IsWithin m g
      → IsWithin m (lease_first to_text now g).0
  unfolding lease_first insert
  lease-IsWithin to_text now g [] e fits w = rw (e, lease_first) w
  lease-IsWithin to_text now g (p ∷ ps) e fits w =
      let (first, rest) = rw e at w.pending in
      rw (e, lease_first)
        (record {
          policy = w.policy;
          pending = rest;
          leased = (omega (arith, first, fits), remove-IsWithin m p.id g.leased w.leased);
          delayed = w.delayed;
        })

  pub lease_count :
      (to_text : MessageId → Text) (now : ℕ) (g : Group F T V) (ps : List (Pending T V))
      (c : Claim T V)
      → g.pending ≡ ps
      → (lease_first to_text now g).1 ≡ claimed c
      → m < 4294967296
      → IsWithin m g
      → (1 ≤ c.delivery_count) × (c.delivery_count ≤ m)
  unfolding lease_first
  lease_count to_text now g [] c e h fits w = absurd (ground (arith, e, h))
  lease_count to_text now g (p ∷ ps) c e h fits w =
      let (first, rest) = rw e at w.pending in
      let told : c.delivery_count ≡ u32 (p.delivery_count + 1) = ground (arith, e, h) in
      (omega (arith, told, first, fits), omega (arith, told, first, fits))
