-- ===== src/Client/Store.antt =====
-- The list of results as a store that is keyed by cookies.
use xmms2remote.Prelude.{
  ℕ, ◌<◌, ◌≤◌, ◌≡◌, ◌≢◌, refl, sym, ◌∙◌, ◌⊎◌, inl, inr, List, [], ◌∷◌, All, true, false, ◌==◌,
  ==_iff, none, some, Bool-cases, arith,
}
use xmms2remote.Client.{CallResult, result_lookup, result_unregister, result_update}

-- No two results have the same cookie.
abbrev pub Distinct : List CallResult → Type 0
Distinct [] = Unit
Distinct (r ∷ rs) = All (λ s. (s.cookie == r.cookie) ≡ false) rs × Distinct rs

-- All cookies were given out before `n`.
abbrev pub Below : ℕ → List CallResult → Type 0
Below n = All (λ r. r.cookie < n)

pub Below-mono : (m n : ℕ) (rs : List CallResult) → m ≤ n → Below m rs → Below n rs
Below-mono m n [] le a = tt
Below-mono m n (r ∷ rs) le (lt, a) = (omega arith, Below-mono m n rs le a)

-- A new state of the result with cookie `k`: with the same cookie, or one above all others.
abbrev pub Renews : List CallResult → ℕ → CallResult → Type 0
Renews rs k new = (new.cookie ≡ k) ⊎ Below new.cookie rs

Renews-rest :
    (r : CallResult) (rs : List CallResult) (k : ℕ) (new : CallResult)
    → Renews (r ∷ rs) k new
    → Renews rs k new
Renews-rest r rs k new (inl e) = inl e
Renews-rest r rs k new (inr (lt, a)) = inr a

pub ne_false : (a b : ℕ) → a ≢ b → (a == b) ≡ false
ne_false a b ne = elim (Bool-cases (a == b)) [ inl e ↦ absurd (ne ((==_iff a b).0 e)) | inr e ↦ e ]

module _ (P : CallResult → Type 0) where
  pub All-result_update :
      (rs : List CallResult) (k : ℕ) (new : CallResult)
      → All P rs
      → P new
      → All P (result_update rs k new)
  unfolding result_update
  All-result_update [] k new a p = tt
  All-result_update (r ∷ rs) k new (q, a) p = elim (Bool-cases (r.cookie == k)) [
    | inl b ↦ rw (result_update, b) (p, a)
    | inr b ↦ rw (result_update, b) (q, All-result_update rs k new a p)
  ]

  pub All-result_unregister :
      (rs : List CallResult) (k : ℕ) → All P rs → All P (result_unregister rs k)
  unfolding result_unregister
  All-result_unregister [] k a = tt
  All-result_unregister (r ∷ rs) k (q, a) = elim (Bool-cases (r.cookie == k)) [
    | inl b ↦ rw (result_unregister, b) a
    | inr b ↦ rw (result_unregister, b) (q, All-result_unregister rs k a)
  ]

pub Below-Distinct :
    (n : ℕ) (rs : List CallResult) → Below n rs → All (λ s. (s.cookie == n) ≡ false) rs
Below-Distinct n [] a = tt
Below-Distinct n (r ∷ rs) (lt, a) = (ground arith, Below-Distinct n rs a)

pub result_update-Distinct :
    (rs : List CallResult) (k : ℕ) (new : CallResult)
    → Distinct rs
    → Renews rs k new
    → Distinct (result_update rs k new)
unfolding result_update
result_update-Distinct [] k new d w = tt
result_update-Distinct (r ∷ rs) k new (a, d) w = elim (Bool-cases (r.cookie == k)) [
  | inl b ↦ rw (result_update, b) (others w ((==_iff r.cookie k).0 b), d)
  | inr b ↦
      rw (result_update, b)
        (
          All-result_update (λ s. (s.cookie == r.cookie) ≡ false) rs k new a (differs w b),
          result_update-Distinct rs k new d (Renews-rest r rs k new w),
        )
]
  where
    others : Renews (r ∷ rs) k new → r.cookie ≡ k → All (λ s. (s.cookie == new.cookie) ≡ false) rs
    others (inl e) e' = rw (e, sym e') a
    others (inr (lt, below)) e' = Below-Distinct new.cookie rs below

    differs : Renews (r ∷ rs) k new → (r.cookie == k) ≡ false → (new.cookie == r.cookie) ≡ false
    differs (inl e) b = ground arith
    differs (inr (lt, below)) b = ground arith

pub result_unregister-Distinct :
    (rs : List CallResult) (k : ℕ) → Distinct rs → Distinct (result_unregister rs k)
unfolding result_unregister
result_unregister-Distinct [] k d = tt
result_unregister-Distinct (r ∷ rs) k (a, d) = elim (Bool-cases (r.cookie == k)) [
  | inl b ↦ rw (result_unregister, b) d
  | inr b ↦
      rw (result_unregister, b)
        (
          All-result_unregister (λ s. (s.cookie == r.cookie) ≡ false) rs k a,
          result_unregister-Distinct rs k d,
        )
]

-- Lookups of other cookies, and of the same.
pub result_lookup-result_update :
    (rs : List CallResult) (k j : ℕ) (new : CallResult)
    → j ≢ k
    → j ≢ new.cookie
    → result_lookup (result_update rs k new) j ≡ result_lookup rs j
unfolding result_lookup result_update
result_lookup-result_update [] k j new ne ne' = refl
result_lookup-result_update (r ∷ rs) k j new ne ne' = elim (Bool-cases (r.cookie == k)) [
  | inl b ↦
      let e = (==_iff r.cookie k).0 b in
      rw
        (
          result_update,
          b,
          result_lookup,
          ne_false new.cookie j (λ q. ne' (sym q)),
          ne_false r.cookie j (λ q. ne (sym q ∙ e)),
        )
        refl
  | inr b ↦ rw (result_update, b, result_lookup, result_lookup-result_update rs k j new ne ne') refl
]

pub result_lookup-result_unregister :
    (rs : List CallResult) (k j : ℕ)
    → j ≢ k
    → result_lookup (result_unregister rs k) j ≡ result_lookup rs j
unfolding result_lookup result_unregister
result_lookup-result_unregister [] k j ne = refl
result_lookup-result_unregister (r ∷ rs) k j ne = elim (Bool-cases (r.cookie == k)) [
  | inl b ↦
      let e = (==_iff r.cookie k).0 b in
      rw (result_unregister, b, result_lookup, ne_false r.cookie j (λ q. ne (sym q ∙ e))) refl
  | inr b ↦ rw (result_unregister, b, result_lookup, result_lookup-result_unregister rs k j ne) refl
]

pub result_lookup-renewed :
    (rs : List CallResult) (k : ℕ) (r new : CallResult)
    → result_lookup rs k ≡ some r
    → Renews rs k new
    → result_lookup (result_update rs k new) new.cookie ≡ some new
unfolding result_lookup result_update
result_lookup-renewed [] k r new e w = absurd (cc)
result_lookup-renewed (s ∷ rs) k r new e w = elim (Bool-cases (s.cookie == k)) [
  | inl b ↦
      let same : (new.cookie == new.cookie) ≡ true = ground arith in
      rw (result_update, b, result_lookup, same) refl
  | inr b ↦
      rw (result_update, b, result_lookup, other w b)
        (result_lookup-renewed rs k r new (rw (result_lookup, b) at e) (Renews-rest s rs k new w))
]
  where
    other : Renews (s ∷ rs) k new → (s.cookie == k) ≡ false → (s.cookie == new.cookie) ≡ false
    other (inl q) b = ground arith
    other (inr (lt, below)) b = ground arith

absent :
    (rs : List CallResult) (k : ℕ)
    → All (λ s. (s.cookie == k) ≡ false) rs
    → result_lookup rs k ≡ none
unfolding result_lookup
absent [] k a = refl
absent (r ∷ rs) k (b, a) = rw (result_lookup, b) (absent rs k a)

pub result_lookup-gone :
    (rs : List CallResult) (k : ℕ) → Distinct rs → result_lookup (result_unregister rs k) k ≡ none
unfolding result_lookup result_unregister
result_lookup-gone [] k d = refl
result_lookup-gone (r ∷ rs) k (a, d) = elim (Bool-cases (r.cookie == k)) [
  | inl b ↦ let e = (==_iff r.cookie k).0 b in rw (result_unregister, b, ← e) (absent rs r.cookie a)
  | inr b ↦ rw (result_unregister, b, result_lookup, b) (result_lookup-gone rs k d)
]

pub result_lookup-cookie :
    (rs : List CallResult) (k n : ℕ) (r : CallResult)
    → Below n rs
    → result_lookup rs k ≡ some r
    → (r.cookie ≡ k) × (r.cookie < n)
unfolding result_lookup
result_lookup-cookie [] k n r a e = absurd (cc)
result_lookup-cookie (s ∷ rs) k n r (lt, a) e = elim (Bool-cases (s.cookie == k)) [
  | inl b ↦
      let found = rw (result_lookup, b) at e in
      let same : s ≡ r = cc in rw (← same) ((==_iff s.cookie k).0 b, lt)
  | inr b ↦ result_lookup-cookie rs k n r a (rw (result_lookup, b) at e)
]
