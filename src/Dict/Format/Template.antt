-- ===== src/Dict/Format/Template.antt =====
-- A format is a row of texts and keys, and what is written is the row of these texts and of the
-- fields, as far as the buffer has room.
use xmms2remote.Prelude.{
  ℕ, zero, suc, ◌+◌, ◌-◌, ◌<◌, ◌≤◌, ◌≡◌, refl, sym, ap, ◌∙◌, false, ltb, List, [], ◌∷◌, ◌++◌,
  Option, some, length, take, drop, arith, append_assoc, take-append, drop-append, drop-append_at,
  length-append, take-nil, ltb→le, Bool-cases, inl, inr, append-nil,
}
use xmms2remote.Value.{Text, Value}
use xmms2remote.Value.Text.{codes}
use xmms2remote.Value.Search.{strchr, strstr, Without, strchr-append, strstr-append, strstr-none}
use xmms2remote.Dict.Sorted.{Sorted, lookup}
use xmms2remote.Dict.Map.{get_refines}
use xmms2remote.Dict.Propdict.{sources_of}
use xmms2remote.Dict.Format.{
  strncat, strcspn, show_key, expand, after_end, after_expand, after_search, format_loop,
  dict_format,
}

-- Keys with the text before each, and the text behind them all.
pub data Template : Type 0 where
  ends : Text → Template
  key : Text → Text → Template → Template

unfoldable pub print : Template → Text
print (ends s) = s
print (key s k t) = s ++ (codes "${" ++ (k ++ b'}' ∷ print t))

-- No dollar in the texts, no closing brace in the keys.
abbrev pub IsTemplate : Template → Type 0
IsTemplate (ends s) = Without b'$' s
IsTemplate (key s k t) = Without b'$' s × Without b'}' k × IsTemplate t

-- What stands before and what behind is cut together.
take-append_room :
    (n : ℕ) (s t : Text) → take n s ++ take (n - length (take n s)) t ≡ take n (s ++ t)
take-append_room zero s t = refl
take-append_room (suc n) [] t = let e : suc n - 0 ≡ suc n = omega arith in ap (λ k. take k t) e
take-append_room (suc n) (c ∷ s) t =
    let e : suc n - suc (length (take n s)) ≡ n - length (take n s) = omega arith in
    ap (λ x. c ∷ x) (ap (λ k. take n s ++ take k t) e ∙ take-append_room n s t)

strncat-take : (n : ℕ) (s t : Text) → strncat (suc n) (take n s) t ≡ take n (s ++ t)
unfolding strncat
strncat-take n s t =
    let e : suc n - length (take n s) - 1 ≡ n - length (take n s) = omega arith in
    ap (λ k. take n s ++ take k t) e ∙ take-append_room n s t

-- A full buffer stays as it is.
full_lem :
    (n : ℕ) (s t : Text)
    → ltb (length (take n s) + 1) (suc n) ≡ false
    → some (take n s) ≡ some (take n (s ++ t))
full_lem n s t full =
    let e : n - length (take n s) ≡ 0 =
      omega (arith, ltb→le (length (take n s) + 1) (suc n) full) in
    ap some (
      sym (append-nil (take n s))
      ∙ (ap (λ k. take n s ++ take k t) (sym e) ∙ take-append_room n s t))

-- Where the parts of a key with its braces are found, behind a text and before the rest.
module _ (t k r : Text) where
  abbrev fmt : Text
  fmt = t ++ (codes "${" ++ (k ++ b'}' ∷ r))

  behind-key : drop (length t + 2) fmt ≡ k ++ b'}' ∷ r
  behind-key =
      ap (drop (length t + 2)) (sym (append_assoc t (codes "${") (k ++ b'}' ∷ r)))
      ∙ drop-append_at (length t + 2) (t ++ codes "${") (k ++ b'}' ∷ r)
          (omega (arith, length-append t (codes "${")))

  the_key : Without b'}' k → take (strcspn (k ++ b'}' ∷ r) b'}') (k ++ b'}' ∷ r) ≡ k
  unfolding strcspn
  the_key q = rw (strcspn, strchr-append k r b'}' q) (take-append k (b'}' ∷ r))

  key_end : Without b'}' k → strchr (drop (length t) fmt) b'}' ≡ some (suc (suc (length k)))
  key_end q =
      ap (λ x. strchr x b'}') (drop-append t (codes "${" ++ (k ++ b'}' ∷ r)))
      ∙ strchr-append (codes "${" ++ k) r b'}' (refl, (refl, q))

  after-key : drop (length t + (suc (suc (length k))) + 1) fmt ≡ r
  after-key =
      ap (drop (length t + (suc (suc (length k))) + 1)) (simp append_assoc)
      ∙ drop-append_at (length t + (suc (suc (length k))) + 1) front r (
          omega
            (arith, length-append t (codes "${" ++ (k ++ b'}' ∷ [])), length-append k (b'}' ∷ [])))
    where
      front : Text
      front = t ++ (codes "${" ++ (k ++ b'}' ∷ []))

module _ (uninit : ℕ) (d : List (Text × Value)) (s : Sorted d) where
  -- The text that a template stands for.
  unfoldable pub meaning : Template → Text
  meaning (ends t) = t
  meaning (key t k rest) =
      t ++ (show_key uninit k (lookup d k) (lookup d (codes "duration")) ++ meaning rest)

  expand_lem :
      (k : Text)
      → expand uninit d k ≡ some (show_key uninit k (lookup d k) (lookup d (codes "duration")))
  unfolding expand
  expand_lem k = rw (expand, get_refines d k s, get_refines d (codes "duration") s) refl

  unfoldable pub keys : Template → ℕ
  keys (ends t) = 0
  keys (key t k rest) = suc (keys rest)

  -- A round of the loop at a key.
  after_search-key :
      (n : ℕ) (again : Text → Text → Option Text) (t k : Text) (rest : Template) (done : Text)
      → Without b'$' t
      → Without b'}' k
      → let fmt = print (key t k rest) in
        after_search uninit (suc n) d again fmt (take n done) (strstr fmt (codes "${"))
        ≡ again
            (print rest)
            (take n ((done ++ t) ++ show_key uninit k (lookup d k) (lookup d (codes "duration"))))
  unfolding print after_search after_expand after_end
  after_search-key n again t k rest done p q =
      rw
        (
          strstr-append t b'$' (codes "{") (k ++ b'}' ∷ print rest) p,
          after_search,
          behind-key t k (print rest),
          the_key t k (print rest) q,
          expand_lem k,
        )
        (rw (key_end t k (print rest) q, take-append t (codes "${" ++ (k ++ b'}' ∷ print rest)))
          (rw
            (
              after_end,
              after-key t k (print rest),
              strncat-take n done t,
              strncat-take n (done ++ t)
                  (show_key uninit k (lookup d k) (lookup d (codes "duration"))),
            )
            refl))

  format_loop-take :
      (n fuel : ℕ) (t : Template) (done : Text)
      → IsTemplate t
      → keys t < fuel
      → format_loop uninit (suc n) d fuel (print t) (take n done)
        ≡ some (take n (done ++ meaning t))
  unfolding format_loop print meaning keys after_search
  format_loop-take n zero t done ok lt = absurd (omega arith)
  format_loop-take n (suc fuel) (ends t) done ok lt =
      elim (Bool-cases (ltb (length (take n done) + 1) (suc n))) [
        | inl room ↦
            rw (format_loop, room, strstr-none t b'$' (codes "{") ok, after_search)
              (ap some (strncat-take n done t))
        | inr full ↦ rw (format_loop, full) (full_lem n done t full)
      ]
  format_loop-take n (suc fuel) (key t k rest) done (p, q, ok) lt =
      let shown = show_key uninit k (lookup d k) (lookup d (codes "duration")) in
      elim (Bool-cases (ltb (length (take n done) + 1) (suc n))) [
        | inl room ↦
            rw (format_loop, room)
              (after_search-key n (format_loop uninit (suc n) d fuel) t k rest done p q
                ∙ (format_loop-take n fuel rest ((done ++ t) ++ shown) ok (omega arith)
                    ∙ ap (λ x. some (take n x))
                        (append_assoc (done ++ t) shown (meaning rest)
                          ∙ append_assoc done t (shown ++ meaning rest))))
        | inr full ↦ rw (format_loop, full) (full_lem n done (meaning (key t k rest)) full)
      ]

  keys-print : (t : Template) → keys t ≤ length (print t)
  unfolding keys print
  keys-print (ends t) = omega arith
  keys-print (key t k rest) = omega (
    arith,
    keys-print rest,
    length-append t (codes "${" ++ (k ++ b'}' ∷ print rest)),
    length-append k (b'}' ∷ print rest),
  )

  -- A format of texts and keys, for a dict whose keys are sorted and a buffer of `n + 1` bytes: the
  -- function ends, reads nothing outside the dict, and leaves in the buffer the first `n` bytes of
  -- the texts and fields in turn.
  pub dict_format-meaning :
      (n : ℕ) (t : Template) (val : Value)
      → IsTemplate t
      → sources_of val ≡ d
      → dict_format uninit (suc n) (print t) val ≡ some (take n (meaning t))
  unfolding dict_format
  dict_format-meaning n t val ok e =
      ap (λ d'. format_loop uninit (suc n) d' (suc (length (print t))) (print t) []) e
      ∙ (ap (format_loop uninit (suc n) d (suc (length (print t))) (print t)) (sym (take-nil n))
          ∙ format_loop-take n (suc (length (print t))) t [] ok (omega (arith, keys-print t)))
