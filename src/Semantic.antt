-- ===== src/Semantic.antt =====
-- Semantic deduplication, crates/qaas-core/src/semantic.rs: embeddings by key, and the nearest of them by
-- cosine similarity. A method takes the reading of the clock, in nanoseconds, as an argument. The
-- arithmetic of `f32` is a parameter.
pub mod Nearest
pub mod Tests
use queue_as_a_service.Base.{
  ℕ, ◌-◌, Bool, true, false, ◌&&◌, ◌||◌, List, [], ◌∷◌, Option, none, some, Map, insert, remove,
  map, length, ltb, ◌==◌, if◌then◌else◌,
}

-- The operations of `f32`; `sum_start` is the value that `sum` starts from, and `exceeds` is whether
-- `total_cmp` answers `Greater`.
pub record Float32 (F : Type 0) : Type 0 where
  pub sum_start : F
  pub add : F → F → F
  pub mul : F → F → F
  pub div : F → F → F
  pub sqrt : F → F
  pub is_zero : F → Bool
  pub is_finite : F → Bool
  pub exceeds : F → F → Bool

pub record Embedding (F : Type 0) : Type 0 where
  pub values : List F

unfoldable pub dimension : {F : Type 0} → Embedding F → ℕ
dimension e = length e.values

module _ {F : Type 0} (f : Float32 F) where
  open f use {sum_start, add, mul, div, sqrt, is_zero, is_finite}

  unfoldable pub all_finite : List F → Bool
  all_finite [] = true
  all_finite (v ∷ vs) = is_finite v && all_finite vs

  -- `Embedding::new`.
  unfoldable pub new_embedding : List F → Option (Embedding F)
  new_embedding [] = none
  new_embedding (v ∷ vs) = if all_finite (v ∷ vs) then some (record { values = v ∷ vs }) else none

  unfoldable pub dot_from : F → List F → List F → F
  dot_from acc (a ∷ as_) (b ∷ bs) = dot_from (add acc (mul a b)) as_ bs
  dot_from acc _ _ = acc

  unfoldable pub norm : List F → F
  unfolding dot_from
  norm vs = sqrt (dot_from sum_start vs vs)

  unfoldable pub cosine_similarity : Embedding F → Embedding F → Option F
  unfolding norm
  cosine_similarity a b =
      if length a.values == length b.values
      then if is_zero (norm a.values) || is_zero (norm b.values)
        then none
        else some (div (dot_from sum_start a.values b.values) (mul (norm a.values) (norm b.values)))
      else none

pub record Entry (F : Type 0) : Type 0 where
  pub embedding : Embedding F
  pub inserted_at : ℕ

pub record EmbeddingIndex (K F : Type 0) : Type 0 where
  pub ttl : Option ℕ
  pub entries : Map K (Entry F)

module _ {K F : Type 0} where
  unfoldable pub new_index : Option ℕ → EmbeddingIndex K F
  new_index ttl = record { ttl = ttl; entries = [] }

  unfoldable pub retain_young : ℕ → ℕ → Map K (Entry F) → Map K (Entry F)
  retain_young ttl now [] = []
  retain_young ttl now ((k, entry) ∷ m) =
      let rest = retain_young ttl now m in
      if ltb (now - entry.inserted_at) ttl then (k, entry) ∷ rest else rest

  unfoldable pub evict_expired : Option ℕ → ℕ → Map K (Entry F) → Map K (Entry F)
  unfolding retain_young
  evict_expired none now m = m
  evict_expired (some ttl) now m = retain_young ttl now m

  unfoldable pub live_count : ℕ → EmbeddingIndex K F → EmbeddingIndex K F × ℕ
  live_count now x =
      let live = evict_expired x.ttl now x.entries in (record x { entries = live }, length live)

  unfoldable pub is_empty : ℕ → EmbeddingIndex K F → EmbeddingIndex K F × Bool
  unfolding live_count
  is_empty now x = let (y, n) = live_count now x in (y, n == 0)

  unfoldable pub live_keys : ℕ → EmbeddingIndex K F → EmbeddingIndex K F × List K
  live_keys now x =
      let live = evict_expired x.ttl now x.entries in
      (record x { entries = live }, map (λ e. e.0) live)

module _ {K F : Type 0} (eq : Discrete K) where
  unfoldable pub insert_embedding : ℕ → K → Embedding F → EmbeddingIndex K F → EmbeddingIndex K F
  insert_embedding now k e x = record x {
    entries = insert eq k (record { embedding = e; inserted_at = now }) x.entries;
  }

  unfoldable pub remove_embedding : K → EmbeddingIndex K F → EmbeddingIndex K F
  remove_embedding k x = record x { entries = remove eq k x.entries }

module _ {K F : Type 0} (f : Float32 F) where
  open f use {exceeds}

  -- The `filter_map` of `nearest`.
  unfoldable pub scores : Embedding F → Map K (Entry F) → List (K × F)
  scores e [] = []
  scores e ((k, entry) ∷ m) =
      let rest = scores e m in
      elim (cosine_similarity f e entry.embedding) [ none ↦ rest | some score ↦ (k, score) ∷ rest ]

  -- `max_by`: of equal ones the last is kept.
  unfoldable pub max_from : K × F → List (K × F) → K × F
  max_from best [] = best
  max_from best (c ∷ cs) = max_from (if exceeds best.1 c.1 then best else c) cs

  unfoldable pub max_by : List (K × F) → Option (K × F)
  unfolding max_from
  max_by [] = none
  max_by (c ∷ cs) = some (max_from c cs)

  unfoldable pub nearest :
      ℕ → Embedding F → EmbeddingIndex K F → EmbeddingIndex K F × Option (K × F)
  unfolding scores max_by
  nearest now e x =
      let live = evict_expired x.ttl now x.entries in
      (record x { entries = live }, max_by (scores e live))
