-- ===== src/Stats/Queue.antt =====
-- What a ring promises: a queue of at most `cap` samples that counts those it turns away.
use titan_bench.Base.{ℕ, List, [], ◌∷◌, ◌++◌, length, leb, if◌then◌else◌, add64}
use titan_bench.Stats.Sample.{RequestSample}

pub record Queue : Type 0 where
  pub items : List RequestSample
  pub lost : ℕ

unfoldable pub offer : ℕ → Queue → RequestSample → Queue
offer cap q x =
    if leb cap (length q.items)
    then record q { lost = add64 q.lost 1 }
    else record q { items = q.items ++ (x ∷ []) }
