-- ===== src/Strlist/Tests.antt =====
-- Two strings in an array.
use xmms2remote.Prelude.{ℕ, zero, suc, ◌≡◌, refl, ap, true, List, [], ◌∷◌, none, some, length}
use xmms2remote.Value.{Text}
use xmms2remote.Value.Text.{codes}
use xmms2remote.Strlist.{
  Cells, Heap, strlist_len, strlist_copy, strlist_prepend_copy, valist_to_strlist,
}
use xmms2remote.Strlist.Contents.{with_slack, strlist_lem}

blank : ℕ → Cells
blank zero = []
blank (suc n) = none ∷ blank n

length-blank : (n : ℕ) → length (blank n) ≡ n
unfolding blank
length-blank zero = refl
length-blank (suc n) = ap suc (length-blank n)

abbrev heap : Heap
heap = record { grants = λ n. true; fresh = blank; fresh_length = length-blank }

abbrev two : List Text
two = codes "a" ∷ codes "bc" ∷ []

strlist_lem_example :
    (valist_to_strlist heap (codes "a") (codes "bc" ∷ []) ≡ some (with_slack two []))
    × (strlist_len (with_slack two (some [] ∷ [])) ≡ some 2)
    × (strlist_copy heap (with_slack two (some [] ∷ [])) ≡ some (with_slack two []))
    × (strlist_prepend_copy heap (with_slack two (some [] ∷ [])) (codes "x")
        ≡ some (with_slack (codes "x" ∷ two) []))
strlist_lem_example =
    strlist_lem heap (λ n. refl) (codes "a") (codes "bc" ∷ []) (some [] ∷ []) (codes "x")
