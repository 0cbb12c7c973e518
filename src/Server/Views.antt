-- ===== src/Server/Views.antt =====
-- What one tenant can see of the registry in crates/qaas-server/src/mcp.rs: the entries under its own keys.
pub mod Agreement
pub mod Answered
use queue_as_a_service.Base.{
  ℕ, ◌≡◌, ◌≢◌, refl, sym, ap, ◌∙◌, arith, Bool, true, false, Bool-cases, Option, none, some, inl,
  inr, [], ◌∷◌, ◌++◌, Map, get, insert, remove, get-insert, ite, if◌then◌else◌, length,
}
use queue_as_a_service.Types.{Text}
use queue_as_a_service.ConsumerGroup.State.{Group}
use queue_as_a_service.Auth.{TenantId, Text-discrete}
use queue_as_a_service.Auth.Names.{new_tenant_id-IsPlain}
use queue_as_a_service.Server.Registry.{
  Registry, scope_key, tenant_key, tenant_prefix, starts_with, split_once, is_queue_name,
  count_matching, pending_total_from,
}
use queue_as_a_service.Server.Scopes.{IsTenant, split_once-append, split_once-scope_key}

starts_with-prefix : (text rest : Text) → starts_with (text ++ 0 ∷ []) (text ++ 0 ∷ rest) ≡ true
unfolding starts_with
starts_with-prefix [] rest = ground arith
starts_with-prefix (c ∷ cs) rest = ground (arith, starts_with-prefix cs rest)

starts_with-rest :
    (text key : Text)
    → starts_with (text ++ 0 ∷ []) key ≡ true
    → (rest : Text) × (key ≡ text ++ 0 ∷ rest)
unfolding starts_with
starts_with-rest [] [] h = absurd (ground (arith, h))
starts_with-rest [] (k ∷ ks) h = (ks, ground (arith, h))
starts_with-rest (c ∷ cs) [] h = absurd (ground (arith, h))
starts_with-rest (c ∷ cs) (k ∷ ks) h =
    let (rest, e) = starts_with-rest cs ks (ground (arith, h)) in (rest, ground (arith, h, e))

pub own_prefix :
    (a : TenantId) (name : Text) → starts_with (tenant_prefix a) (scope_key (some a) name) ≡ true
unfolding tenant_prefix scope_key
own_prefix a name = starts_with-prefix a.text name

-- No key of another tenant starts with the prefix.
pub other_prefix :
    (a u : TenantId) (name : Text)
    → IsTenant (some a)
    → IsTenant (some u)
    → u ≢ a
    → is_queue_name name ≡ true
    → starts_with (tenant_prefix a) (scope_key (some u) name) ≡ false
unfolding tenant_prefix
other_prefix a u name ha hu differ hn =
    elim (Bool-cases (starts_with (a.text ++ 0 ∷ []) (scope_key (some u) name))) [
      | inr e ↦ e
      | inl e ↦
          let (rest, same) = starts_with-rest a.text _ e in
          let (_, _, _, plain) = new_tenant_id-IsPlain a.text a ha in
          let parts =
            sym (split_once-scope_key (some u) name hu hn)
            ∙ ap split_once same
            ∙ split_once-append a.text rest plain in
          absurd (differ (ground (arith, parts)))
    ]

module _ {F V : Type 0} (a : TenantId) where
  -- The queues of the tenant.
  unfoldable pub own_groups : Map Text (Group F V V) → Map Text (Group F V V)
  own_groups [] = []
  own_groups ((key, g) ∷ m) =
      let rest = own_groups m in if starts_with (tenant_prefix a) key then (key, g) ∷ rest else rest

  get-own_groups :
      (key : Text) (m : Map Text (Group F V V))
      → starts_with (tenant_prefix a) key ≡ true
      → get Text-discrete key (own_groups m) ≡ get Text-discrete key m
  unfolding own_groups get
  get-own_groups key [] h = refl
  get-own_groups key ((k, g) ∷ m) h = ground (arith, get-own_groups key m h, h)

  own_groups-remove :
      (key : Text) (m : Map Text (Group F V V))
      → own_groups (remove Text-discrete key m) ≡ remove Text-discrete key (own_groups m)
  unfolding own_groups remove
  own_groups-remove key [] = refl
  own_groups-remove key ((k, g) ∷ m) = ground (arith, own_groups-remove key m)

  own_groups-remove_other :
      (key : Text) (m : Map Text (Group F V V))
      → starts_with (tenant_prefix a) key ≡ false
      → own_groups (remove Text-discrete key m) ≡ own_groups m
  unfolding own_groups remove
  own_groups-remove_other key [] h = refl
  own_groups-remove_other key ((k, g) ∷ m) h = ground (arith, own_groups-remove_other key m h, h)

  pub own_groups-insert :
      (key : Text) (g : Group F V V) (m : Map Text (Group F V V))
      → starts_with (tenant_prefix a) key ≡ true
      → own_groups (insert Text-discrete key g m) ≡ insert Text-discrete key g (own_groups m)
  unfolding own_groups insert
  own_groups-insert key g m h = ground (arith, own_groups-remove key m, h)

  pub own_groups-insert_other :
      (key : Text) (g : Group F V V) (m : Map Text (Group F V V))
      → starts_with (tenant_prefix a) key ≡ false
      → own_groups (insert Text-discrete key g m) ≡ own_groups m
  unfolding own_groups insert
  own_groups-insert_other key g m h = ground (arith, own_groups-remove_other key m h, h)

  count-own_groups :
      (m : Map Text (Group F V V)) → count_matching a (own_groups m) ≡ count_matching a m
  unfolding own_groups count_matching
  count-own_groups [] = refl
  count-own_groups ((k, g) ∷ m) = ground (arith, count-own_groups m)

  pending-own_groups :
      (m : Map Text (Group F V V)) (total : ℕ)
      → pending_total_from a total (own_groups m) ≡ pending_total_from a total m
  unfolding own_groups pending_total_from
  pending-own_groups [] total = refl
  pending-own_groups ((k, g) ∷ m) total = elim (Bool-cases (starts_with (tenant_prefix a) k)) [
    | inl e ↦ rw (e, own_groups) (rw (e, pending_total_from) (pending-own_groups m _))
    | inr e ↦ rw (e, own_groups) (pending-own_groups m total)
  ]

  -- From the queues of the tenant come all look-ups under its keys, and its counts.
  pub own_get :
      (name : Text) (m m' : Map Text (Group F V V))
      → own_groups m ≡ own_groups m'
      → get Text-discrete (scope_key (some a) name) m
        ≡ get Text-discrete (scope_key (some a) name) m'
  own_get name m m' e =
      let own = own_prefix a name in
      sym (get-own_groups _ m own)
      ∙ ap (get Text-discrete (scope_key (some a) name)) e
      ∙ get-own_groups _ m' own

  pub own_count :
      (m m' : Map Text (Group F V V))
      → own_groups m ≡ own_groups m'
      → count_matching a m ≡ count_matching a m'
  own_count m m' e = sym (count-own_groups m) ∙ ap (count_matching a) e ∙ count-own_groups m'

  pub own_pending :
      (m m' : Map Text (Group F V V))
      → own_groups m ≡ own_groups m'
      → pending_total_from a 0 m ≡ pending_total_from a 0 m'
  own_pending m m' e =
      sym (pending-own_groups m 0) ∙ ap (pending_total_from a 0) e ∙ pending-own_groups m' 0
