-- ===== src/Semantic/Tests.antt =====
-- The search on a concrete index, with numbers for `f32`.
use queue_as_a_service.Base.{ℕ, ◌+◌, ◌*◌, arith, true, [], ◌∷◌, some, ltb, ◌==◌}
use queue_as_a_service.Semantic.{Float32, Embedding, EmbeddingIndex, nearest}
use queue_as_a_service.Semantic.Nearest.{IsOrder, IsNearest, nearest-IsNearest}

abbrev float32 : Float32 ℕ
float32 = record {
  sum_start = 0;
  add = λ a b. a + b;
  mul = λ a b. a * b;
  div = λ a b. a;
  sqrt = λ a. a;
  is_zero = λ a. a == 0;
  is_finite = λ a. true;
  exceeds = λ a b. ltb b a;
}

float32-IsOrder : IsOrder float32
float32-IsOrder = record {
  asymmetric = λ a b h. ground (arith, h);
  transitive = λ a b c h k. ground (arith, h, k);
}

abbrev index : EmbeddingIndex ℕ ℕ
index = record {
  ttl = some 10;
  entries =
      (1, record { embedding = record { values = 1 ∷ 2 ∷ [] }; inserted_at = 5 })
      ∷ (2, record { embedding = record { values = 3 ∷ 4 ∷ [] }; inserted_at = 6 })
      ∷ (3, record { embedding = record { values = 9 ∷ 9 ∷ [] }; inserted_at = 0 })
      ∷ [];
}

abbrev sought : Embedding ℕ
sought = record { values = 1 ∷ 1 ∷ [] }

nearest-IsNearest_example : IsNearest float32 12 sought index (nearest float32 12 sought index).1
nearest-IsNearest_example = nearest-IsNearest float32 12 sought index float32-IsOrder
