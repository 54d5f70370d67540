-- ===== src/Sockaddr/Tests.antt =====
-- The decimal text of 4321.
use gain.Base.{◌≡◌, refl, arith, Returns, [], ◌∷◌, ret, replicate}
use gain.Sockaddr.{int2decimal}
use gain.Sockaddr.Decimal.{AllDigits, number, int2decimal-number}

text_of_4321 : int2decimal 4321 (replicate 32 0) ≡ ret (52 ∷ 51 ∷ 50 ∷ 49 ∷ [])
unfolding int2decimal
text_of_4321 = refl

int2decimal-number_example :
    Returns (int2decimal 4321 (replicate 32 0)) (λ text. AllDigits text × (number text ≡ 4321))
int2decimal-number_example = int2decimal-number 4321 (replicate 32 0) (omega arith) refl
