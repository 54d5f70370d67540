-- ===== src/KeyPool/Tests.antt =====
-- Keys with 5 out, 3 on the stack and 7 the next new one.
use gain.Base.{arith, [], ◌∷◌}
use gain.Base.Maps.{occurrences}
use gain.KeyPool.{KeyPool}
use gain.KeyPool.Fresh.{IsDistinct}

abbrev some_keys : KeyPool
some_keys = record { stack = 3 ∷ []; next_key = 7 }

abbrev none_free : KeyPool
none_free = record { stack = []; next_key = 7 }

some_keys-IsDistinct : IsDistinct (5 ∷ []) some_keys
unfolding occurrences
some_keys-IsDistinct = record {
  once = λ k. ground arith;
  above = λ k h. ground arith;
  next_pos = omega arith;
}

both_out : IsDistinct (3 ∷ 5 ∷ []) none_free
unfolding occurrences
both_out = record { once = λ k. ground arith; above = λ k h. ground arith; next_pos = omega arith }
