-- ===== src/Semantic/Nearest.antt =====
-- What the search of crates/qaas-core/src/semantic.rs finds.
use mathlib.Core.Path.{subst}
use queue_as_a_service.Base.{
  ℕ, ◌-◌, ◌<◌, ◌≡◌, refl, sym, ◌∙◌, arith, Bool, true, false, List, [], ◌∷◌, Option, none, some,
  Map, ◌⊎◌, ◌↔◌, ap, lt→ltb, inl, inr, Bool-cases, ltb, if◌then◌else◌,
}
use queue_as_a_service.Semantic.{
  Float32, Embedding, Entry, EmbeddingIndex, cosine_similarity, retain_young, evict_expired, scores,
  max_from, max_by, nearest,
}

abbrev pub Occurs : {A : Type 0} → A → List A → Type 0
Occurs a [] = ⊥
Occurs a (x ∷ xs) = (a ≡ x) ⊎ Occurs a xs

-- An entry is kept for less than the time to live.
abbrev pub IsYoung : {F : Type 0} → Option ℕ → ℕ → Entry F → Type 0
IsYoung none now entry = Unit
IsYoung (some ttl) now entry = now - entry.inserted_at < ttl

-- An element of a list that a test may have left the first element out of.
module _ {A : Type 0} {a x : A} (xs : List A) where
  Occurs-kept :
      (b : Bool) → Occurs a (if b then x ∷ xs else xs) → (b ≡ true) × (a ≡ x) ⊎ Occurs a xs
  Occurs-kept true (inl e) = inl (refl, e)
  Occurs-kept true (inr h) = inr h
  Occurs-kept false h = inr h

  kept_Occurs :
      (b : Bool) → (b ≡ true) × (a ≡ x) ⊎ Occurs a xs → Occurs a (if b then x ∷ xs else xs)
  kept_Occurs true (inl (_, e)) = inl e
  kept_Occurs true (inr h) = inr h
  kept_Occurs false (inl (c, _)) = absurd (ground (arith, c))
  kept_Occurs false (inr h) = h

module _ {K F : Type 0} where
  retain_young_sound :
      (ttl now : ℕ) (m : Map K (Entry F)) (e : K × Entry F)
      → Occurs e (retain_young ttl now m)
      → Occurs e m × (now - e.1.inserted_at < ttl)
  unfolding retain_young
  retain_young_sound ttl now [] e h = elim h [ ]
  retain_young_sound ttl now ((j, w) ∷ m) e h =
      elim (Occurs-kept _ (ltb (now - w.inserted_at) ttl) h) [
        | inl (young, same) ↦ (inl same, rw same (ground (arith, young)))
        | inr later ↦
            let (found, young) = retain_young_sound ttl now m e later in (inr found, young)
      ]

  retain_young_complete :
      (ttl now : ℕ) (m : Map K (Entry F)) (e : K × Entry F)
      → Occurs e m
      → now - e.1.inserted_at < ttl
      → Occurs e (retain_young ttl now m)
  unfolding retain_young
  retain_young_complete ttl now [] e h young = elim h [ ]
  retain_young_complete ttl now ((j, w) ∷ m) e (inl same) young =
      kept_Occurs _ (ltb (now - w.inserted_at) ttl)
        (inl (lt→ltb _ _ (subst (λ x. now - x.1.inserted_at < ttl) same young), same))
  retain_young_complete ttl now ((j, w) ∷ m) e (inr later) young =
      kept_Occurs _ (ltb (now - w.inserted_at) ttl)
        (inr (retain_young_complete ttl now m e later young))

  -- The entries that stay are those of the index that are younger than the time to live.
  pub evict_expired-Occurs :
      (ttl : Option ℕ) (now : ℕ) (m : Map K (Entry F)) (e : K × Entry F)
      → Occurs e (evict_expired ttl now m) ↔ Occurs e m × IsYoung ttl now e.1
  unfolding evict_expired
  evict_expired-Occurs none now m e = (λ h. (h, tt), λ h. h.0)
  evict_expired-Occurs (some ttl) now m e =
      (retain_young_sound ttl now m e, λ (h, y). retain_young_complete ttl now m e h y)

-- `total_cmp` is an order: what exceeds is not exceeded, and what does not exceed composes.
pub record IsOrder {F : Type 0} (f : Float32 F) : Type 0 where
  pub asymmetric : (a b : F) → f.exceeds a b ≡ true → f.exceeds b a ≡ false
  pub transitive :
      (a b c : F) → f.exceeds a b ≡ false → f.exceeds b c ≡ false → f.exceeds a c ≡ false

-- A pair of a list whose first element may have been left out for want of a score.
module _ {K F : Type 0} (k : K) (c : K × F) (cs : List (K × F)) where
  abbrev with_score : Option F → List (K × F)
  with_score o = elim o [ none ↦ cs | some score ↦ (k, score) ∷ cs ]

  Occurs-with_score :
      (o : Option F) → Occurs c (with_score o) → (c.0 ≡ k) × (o ≡ some c.1) ⊎ Occurs c cs
  Occurs-with_score none h = inr h
  Occurs-with_score (some s) (inl e) = inl (ap (λ p. p.0) e, ap (λ p. some p.1) (sym e))
  Occurs-with_score (some s) (inr h) = inr h

  with_score-Occurs :
      (o : Option F) → (c.0 ≡ k) × (o ≡ some c.1) ⊎ Occurs c cs → Occurs c (with_score o)
  with_score-Occurs none (inl (_, e)) = absurd (ground (arith, e))
  with_score-Occurs none (inr h) = h
  with_score-Occurs (some s) (inl (e, e')) = inl (cc (e, e'))
  with_score-Occurs (some s) (inr h) = inr h

irreflexive : {F : Type 0} (f : Float32 F) → IsOrder f → (a : F) → f.exceeds a a ≡ false
irreflexive f order a = elim (Bool-cases (f.exceeds a a)) [
  | inl h ↦ order.asymmetric a a h
  | inr h ↦ h
]

module _ {K F : Type 0} (f : Float32 F) where
  open f use {exceeds}

  -- One of the candidates that no candidate exceeds.
  abbrev IsBest : K × F → K × F → List (K × F) → Type 0
  IsBest p first cs =
      ((p ≡ first) ⊎ Occurs p cs)
      × (exceeds first.1 p.1 ≡ false)
      × ((c : K × F) → Occurs c cs → exceeds c.1 p.1 ≡ false)

  IsBest-above :
      (p first c : K × F) (cs : List (K × F))
      → IsOrder f
      → exceeds first.1 c.1 ≡ true
      → IsBest p first cs
      → IsBest p first (c ∷ cs)
  IsBest-above p first c cs order above (member, top, tops) = (
    elim member [ inl e ↦ inl e | inr h ↦ inr (inr h) ],
    top,
    λ d h. elim h [
      | inl e ↦ rw e (order.transitive c.1 first.1 p.1 (order.asymmetric first.1 c.1 above) top)
      | inr later ↦ tops d later
    ],
  )

  IsBest-below :
      (p first c : K × F) (cs : List (K × F))
      → IsOrder f
      → exceeds first.1 c.1 ≡ false
      → IsBest p c cs
      → IsBest p first (c ∷ cs)
  IsBest-below p first c cs order below (member, top, tops) = (
    elim member [ inl e ↦ inr (inl e) | inr h ↦ inr (inr h) ],
    order.transitive first.1 c.1 p.1 below top,
    λ d h. elim h [ inl e ↦ rw e top | inr later ↦ tops d later ],
  )

  IsBest-step :
      (b : Bool) (first c : K × F) (cs : List (K × F))
      → IsOrder f
      → exceeds first.1 c.1 ≡ b
      → IsBest (max_from f first cs) first cs
      → IsBest (max_from f c cs) c cs
      → IsBest (max_from f (if b then first else c) cs) first (c ∷ cs)
  IsBest-step true first c cs order h kept _ = IsBest-above _ first c cs order h kept
  IsBest-step false first c cs order h _ next = IsBest-below _ first c cs order h next

  max_from-IsBest :
      IsOrder f → (first : K × F) (cs : List (K × F)) → IsBest (max_from f first cs) first cs
  unfolding max_from
  max_from-IsBest order first [] = (inl refl, irreflexive f order first.1, λ c h. elim h [ ])
  max_from-IsBest order first (c ∷ cs) =
      IsBest-step (exceeds first.1 c.1) first c cs order refl (max_from-IsBest order first cs)
        (max_from-IsBest order c cs)

  -- An entry and what it scores.
  abbrev pub Scored : Embedding F → K × F → K × Entry F → Type 0
  Scored e c entry = (c.0 ≡ entry.0) × (cosine_similarity f e entry.1.embedding ≡ some c.1)

  scores_sound :
      (e : Embedding F) (c : K × F) (m : Map K (Entry F))
      → Occurs c (scores f e m)
      → (entry : K × Entry F) × Occurs entry m × Scored e c entry
  unfolding scores
  scores_sound e c [] h = elim h [ ]
  scores_sound e c ((k, w) ∷ m) h =
      elim (Occurs-with_score k c _ (cosine_similarity f e w.embedding) h) [
        | inl same ↦ ((k, w), inl refl, same)
        | inr later ↦
            let (entry, found, same) = scores_sound e c m later in (entry, inr found, same)
      ]

  scores_complete :
      (e : Embedding F) (c : K × F) (entry : K × Entry F) (m : Map K (Entry F))
      → Occurs entry m
      → Scored e c entry
      → Occurs c (scores f e m)
  unfolding scores
  scores_complete e c entry [] h same = elim h [ ]
  scores_complete e c entry ((k, w) ∷ m) (inl first) (same, score) = with_score-Occurs k c _ _ (
      inl (
        same ∙ ap (λ p. p.0) first,
        sym (ap (λ p. cosine_similarity f e p.1.embedding) first) ∙ score,
      ))
  scores_complete e c entry ((k, w) ∷ m) (inr later) same =
      with_score-Occurs k c _ _ (inr (scores_complete e c entry m later same))

  -- A candidate of the search: an entry that is young enough and can be compared, with its score.
  abbrev pub Candidate : ℕ → Embedding F → EmbeddingIndex K F → K × F → Type 0
  Candidate now e x c =
      (entry : K × Entry F) × (Occurs entry x.entries × IsYoung x.ttl now entry.1)
      × Scored e c entry

  abbrev pub IsNearest : ℕ → Embedding F → EmbeddingIndex K F → Option (K × F) → Type 0
  IsNearest now e x none = (c : K × F) → ¬ Candidate now e x c
  IsNearest now e x (some best) =
      Candidate now e x best × ((c : K × F) → Candidate now e x c → exceeds c.1 best.1 ≡ false)

  IsNearest-max_by :
      (now : ℕ) (e : Embedding F) (x : EmbeddingIndex K F) (cs : List (K × F))
      → IsOrder f
      → ((c : K × F) → Occurs c cs ↔ Candidate now e x c)
      → IsNearest now e x (max_by f cs)
  unfolding max_by
  IsNearest-max_by now e x [] order h = λ c k. elim ((h c).1 k) [ ]
  IsNearest-max_by now e x (c ∷ cs) order h =
      let (member, top, tops) = max_from-IsBest order c cs in
      (
        (h _).0 member,
        λ d k. elim ((h d).1 k) [ inl first ↦ rw first top | inr later ↦ tops d later ],
      )

  -- The search finds an entry that is younger than the time to live and can be compared, and no such
  -- entry scores higher, where `total_cmp` is an order; it finds nothing only where there is none.
  pub nearest-IsNearest :
      (now : ℕ) (e : Embedding F) (x : EmbeddingIndex K F)
      → IsOrder f
      → IsNearest now e x (nearest f now e x).1
  unfolding nearest
  nearest-IsNearest now e x order =
      let live = evict_expired-Occurs x.ttl now x.entries in
      IsNearest-max_by now e x _ order (λ c. (
        λ h. let (entry, found, same) = scores_sound e c _ h in (entry, (live entry).0 found, same),
        λ (entry, found, same). scores_complete e c entry _ ((live entry).1 found) same,
      ))
