-- ===== src/ValueList/Places.antt =====
-- The position that an int stands for, and what `absolutify_and_validate_pos` says of it.
use xmms2remote.Prelude.{
  ℕ, suc, ◌+◌, ◌-◌, ◌^◌, ◌≤◌, ◌<◌, ◌≡◌, refl, inl, inr, Bool, true, false, ltb, ◌==◌, ==_iff,
  ltb→lt, ltb→le, gt→leb, Bool-cases, arith,
}
use xmms2remote.ValueList.{
  ℤ, pos, negsuc, Place, cell, outside, overflow, int_limit, validate, absolutify,
}

-- The position in a list of `n` values that an int stands for.
abbrev pub Points : ℤ → ℕ → ℕ → Type 0
Points (pos q) n p = q ≡ p
Points (negsuc q) n p = p + suc q ≡ n

-- It has a negation, as every int but the least.
abbrev pub Negatable : ℤ → Type 0
Negatable (pos q) = Unit
Negatable (negsuc q) = suc q < 2 ^ 31

-- What `absolutify_and_validate_pos` must say, when the positions below `bound` are valid.
abbrev pub Placed : ℤ → ℕ → ℕ → Place → Type 0
Placed at n bound (cell p) = Points at n p × p < bound
Placed at n bound outside = (p : ℕ) → Points at n p → bound ≤ p
Placed at n bound overflow = ⊥

validate_append : (q n : ℕ) → Placed (pos q) n (suc n) (validate q n true)
unfolding validate
validate_append q n = elim (Bool-cases (ltb n q)) [
  | inl b ↦ rw b λ p e. omega (arith, ltb→lt n q b)
  | inr b ↦ rw b (refl, omega (arith, ltb→le n q b))
]

validate_inside : (q n : ℕ) → Placed (pos q) n n (validate q n false)
unfolding validate
validate_inside q n = elim (Bool-cases (ltb n q)) [
  | inl b ↦ rw b λ p e. omega (arith, ltb→lt n q b)
  | inr b ↦ elim (Bool-cases (q == n)) [
    | inl last ↦ rw (b, last) λ p e. omega (arith, (==_iff q n).0 last)
    | inr other ↦ rw (b, other) (refl, ground arith)
  ]
]

count_back :
    (q n bound : ℕ) (r : Place)
    → suc q ≤ n
    → Placed (pos (n - suc q)) n bound r
    → Placed (negsuc q) n bound r
count_back q n bound (cell p) le (e, lt) = (omega arith, lt)
count_back q n bound outside le none_is = λ p e. none_is p (omega arith)
count_back q n bound overflow le bad = bad

from_end :
    (q n bound : ℕ) (allow_append : Bool)
    → suc q < 2 ^ 31
    → ((q : ℕ) → Placed (pos q) n bound (validate q n allow_append))
    → Placed (negsuc q) n bound (absolutify (negsuc q) n allow_append)
unfolding absolutify
from_end q n bound allow_append lt forward =
    rw (gt→leb int_limit (suc q) lt) (elim (Bool-cases (ltb n (suc q))) [
      | inl b ↦ rw b λ p e. absurd (omega (arith, ltb→lt n (suc q) b))
      | inr b ↦ rw b (
          count_back q n bound (validate (n - suc q) n allow_append) (ltb→le n (suc q) b)
            (forward (n - suc q)))
    ])

-- Where a value may be inserted in a list of `n` values, and where one stands.
pub absolutify_append : (at : ℤ) (n : ℕ) → Negatable at → Placed at n (suc n) (absolutify at n true)
unfolding absolutify
absolutify_append (pos q) n ok = validate_append q n
absolutify_append (negsuc q) n ok = from_end q n (suc n) true ok λ q. validate_append q n

pub absolutify_inside : (at : ℤ) (n : ℕ) → Negatable at → Placed at n n (absolutify at n false)
unfolding absolutify
absolutify_inside (pos q) n ok = validate_inside q n
absolutify_inside (negsuc q) n ok = from_end q n n false ok λ q. validate_inside q n
