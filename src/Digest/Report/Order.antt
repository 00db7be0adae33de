-- ===== src/Digest/Report/Order.antt =====
-- The order of strings is a strict total order.
use teen_dns.Base.{◌≡◌, refl, true, false, not, [], ◌∷◌, Text, texts_equal, arith}
use teen_dns.Digest.Report.{text_less}

pub text_less_trans :
    (z x y : Text) → text_less z x ≡ true → text_less z y ≡ false → text_less y x ≡ true
unfolding text_less
text_less_trans [] [] y h k = ground (arith, h)
text_less_trans [] (b ∷ x) [] h k = refl
text_less_trans [] (b ∷ x) (c ∷ y) h k = ground (arith, k)
text_less_trans (a ∷ z) [] y h k = ground (arith, h)
text_less_trans (a ∷ z) (b ∷ x) [] h k = refl
text_less_trans (a ∷ z) (b ∷ x) (c ∷ y) h k = ground (arith, h, k, text_less_trans z x y)

pub text_less_total : (s t : Text) → texts_equal s t ≡ false → text_less s t ≡ not (text_less t s)
unfolding text_less texts_equal
text_less_total [] [] h = ground (arith, h)
text_less_total [] (b ∷ t) h = refl
text_less_total (a ∷ s) [] h = refl
text_less_total (a ∷ s) (b ∷ t) h = ground (arith, h, text_less_total s t)
