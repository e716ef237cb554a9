-- ===== src/Client/Replace.antt =====
-- Valid connections, and a result that is put in place of an older state of itself.
use xmms2remote.Prelude.{
  ℕ, ◌-◌, ◌<◌, ◌≤◌, ◌≡◌, ◌≢◌, refl, ◌∙◌, inl, inr, List, ◌==◌, if◌then◌else◌, none, some,
  Bool-cases,
}
use xmms2remote.Client.{CallResult, Connection, result_lookup, result_update, result_unref}
use xmms2remote.Client.Store.{
  Distinct, Below, Below-mono, Renews, All-result_update, All-result_unregister,
  result_update-Distinct, result_unregister-Distinct, result_lookup-result_update,
  result_lookup-result_unregister, result_lookup-renewed, result_lookup-gone,
}

-- The results that wait have different cookies, all given out before the next one.
pub record IsValid (c : Connection) : Type 0 where
  pub below : Below c.next_cookie c.results_list
  pub distinct : Distinct c.results_list

-- Giving back a reference to a result in the list.
module _ (n : ℕ) (rs : List CallResult) (r : CallResult) (b : Below n rs) (d : Distinct rs)
    (lt : r.cookie < n) where
  abbrev less : CallResult
  less = record r { ref = r.ref - 1 }

  abbrev left : List CallResult
  left = result_update rs r.cookie less

  left-Below : Below n left
  left-Below = All-result_update (λ s. s.cookie < n) rs r.cookie less b lt

  left-Distinct : Distinct left
  left-Distinct = result_update-Distinct rs r.cookie less d (inl refl)

  pub result_unref-Valid : Below n (result_unref r rs) × Distinct (result_unref r rs)
  unfolding result_unref
  result_unref-Valid = elim (Bool-cases (r.ref == 1)) [
    | inl e ↦
        rw (result_unref, e)
          (
            All-result_unregister (λ s. s.cookie < n) left r.cookie left-Below,
            result_unregister-Distinct left r.cookie left-Distinct,
          )
    | inr e ↦ rw (result_unref, e) (left-Below, left-Distinct)
  ]

  result_unref-others :
      (j : ℕ) → j ≢ r.cookie → result_lookup (result_unref r rs) j ≡ result_lookup rs j
  unfolding result_unref
  result_unref-others j ne =
      let same = result_lookup-result_update rs r.cookie j less ne ne in
      elim (Bool-cases (r.ref == 1)) [
        | inl e ↦ rw (result_unref, e) (result_lookup-result_unregister left r.cookie j ne ∙ same)
        | inr e ↦ rw (result_unref, e) same
      ]

  -- The result itself: freed with its last reference, else still there.
  result_unref-itself :
      result_lookup rs r.cookie ≡ some r
      → result_lookup (result_unref r rs) r.cookie ≡ (if r.ref == 1 then none else some less)
  unfolding result_unref
  result_unref-itself e = elim (Bool-cases (r.ref == 1)) [
    | inl q ↦ rw (result_unref, q) (result_lookup-gone left r.cookie left-Distinct)
    | inr q ↦ rw (result_unref, q) (result_lookup-renewed rs r.cookie r less e (inl refl))
  ]

-- The result with new contents `new`, put in place of the old one.
module _ (c : Connection) (k : ℕ) (r new : CallResult) (n : ℕ) (valid : IsValid c)
    (waits : result_lookup c.results_list k ≡ some r) (w : Renews c.results_list k new)
    (le : c.next_cookie ≤ n) (lt : new.cookie < n) where
  abbrev updated : List CallResult
  updated = result_update c.results_list k new

  updated-Below : Below n updated
  updated-Below =
      All-result_update (λ s. s.cookie < n) c.results_list k new
        (Below-mono c.next_cookie n c.results_list le valid.below) lt

  updated-Distinct : Distinct updated
  updated-Distinct = result_update-Distinct c.results_list k new valid.distinct w

  pub replaced-Valid : Below n (result_unref new updated) × Distinct (result_unref new updated)
  replaced-Valid = result_unref-Valid n updated new updated-Below updated-Distinct lt

  pub replaced-others :
      (j : ℕ)
      → j ≢ k
      → j ≢ new.cookie
      → result_lookup (result_unref new updated) j ≡ result_lookup c.results_list j
  replaced-others j ne ne' =
      result_unref-others n updated new updated-Below updated-Distinct lt j ne'
      ∙ result_lookup-result_update c.results_list k j new ne ne'

  pub replaced-itself :
      result_lookup (result_unref new updated) new.cookie
      ≡ (if new.ref == 1 then none else some (record new { ref = new.ref - 1 }))
  replaced-itself =
      result_unref-itself n updated new updated-Below updated-Distinct lt
        (result_lookup-renewed c.results_list k r new waits w)
