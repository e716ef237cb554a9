-- ===== src/Dict/Order.antt =====
-- `strcmp` is a strict total order on byte strings.
use xmms2remote.Prelude.{◌≡◌, refl, [], ◌∷◌, arith}
use xmms2remote.Value.{Text}
use xmms2remote.Value.Text.{Sign, less, same, greater, strcmp}

abbrev pub swap : Sign → Sign
swap less = greater
swap same = same
swap greater = less

pub strcmp_refl : (s : Text) → strcmp s s ≡ same
unfolding strcmp
strcmp_refl [] = refl
strcmp_refl (a ∷ s) = ground (arith, strcmp_refl s)

pub strcmp-swap : (s t : Text) → strcmp t s ≡ swap (strcmp s t)
unfolding strcmp
strcmp-swap [] [] = refl
strcmp-swap [] (b ∷ t) = refl
strcmp-swap (a ∷ s) [] = refl
strcmp-swap (a ∷ s) (b ∷ t) = ground (arith, strcmp-swap s t)

pub strcmp_same : (s t : Text) → strcmp s t ≡ same → s ≡ t
unfolding strcmp
strcmp_same [] [] h = refl
strcmp_same [] (b ∷ t) h = cc
strcmp_same (a ∷ s) [] h = cc
strcmp_same (a ∷ s) (b ∷ t) h = ground (arith, strcmp_same s t)

pub strcmp_trans : (s t u : Text) → strcmp s t ≡ less → strcmp t u ≡ less → strcmp s u ≡ less
unfolding strcmp
strcmp_trans [] [] u h k = cc
strcmp_trans [] (b ∷ t) [] h k = cc
strcmp_trans [] (b ∷ t) (c ∷ u) h k = refl
strcmp_trans (a ∷ s) [] u h k = cc
strcmp_trans (a ∷ s) (b ∷ t) [] h k = cc
strcmp_trans (a ∷ s) (b ∷ t) (c ∷ u) h k = ground (arith, strcmp_trans s t u)
