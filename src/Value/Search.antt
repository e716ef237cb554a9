-- ===== src/Value/Search.antt =====
-- `strchr`, `strrchr` and `strstr` of the C library, which answer here with the offset of what they
-- find.
use xmms2remote.Prelude.{
  ℕ, suc, ◌==◌, ◌≡◌, refl, Bool, true, false, ◌&&◌, if◌then◌else◌, [], ◌∷◌, ◌++◌, Option, none,
  some, length, All, ==_iff,
}
use xmms2remote.Value.{Text}

abbrev next : Option ℕ → Option ℕ
next none = none
next (some n) = some (suc n)

unfoldable pub strchr : Text → ℕ → Option ℕ
strchr [] sep = none
strchr (c ∷ s) sep = let rest = strchr s sep in if c == sep then some 0 else next rest

abbrev last_or : Bool → Option ℕ → Option ℕ
last_or here (some n) = some (suc n)
last_or here none = if here then some 0 else none

unfoldable pub strrchr : Text → ℕ → Option ℕ
strrchr [] sep = none
strrchr (c ∷ s) sep = last_or (c == sep) (strrchr s sep)

unfoldable pub starts_with : Text → Text → Bool
starts_with [] s = true
starts_with (a ∷ sep) [] = false
starts_with (a ∷ sep) (c ∷ s) = (c == a) && starts_with sep s

unfoldable pub strstr : Text → Text → Option ℕ
unfolding starts_with
strstr [] sep = if starts_with sep [] then some 0 else none
strstr (c ∷ s) sep =
    let rest = strstr s sep in if starts_with sep (c ∷ s) then some 0 else next rest

-- A text without the byte.
abbrev pub Without : ℕ → Text → Type 0
Without sep = All (λ c. (c == sep) ≡ false)

pub Without-append : (sep : ℕ) (a b : Text) → Without sep a → Without sep b → Without sep (a ++ b)
Without-append sep [] b p q = q
Without-append sep (c ∷ a) b (h, p) q = (h, Without-append sep a b p q)

==_refl : (sep : ℕ) → (sep == sep) ≡ true
==_refl sep = (==_iff sep sep).1 refl

pub strchr-none : (s : Text) (sep : ℕ) → Without sep s → strchr s sep ≡ none
unfolding strchr
strchr-none [] sep p = refl
strchr-none (c ∷ s) sep (h, p) = rw (strchr, h, strchr-none s sep p) refl

pub strchr-append :
    (a b : Text) (sep : ℕ) → Without sep a → strchr (a ++ sep ∷ b) sep ≡ some (length a)
unfolding strchr
strchr-append [] b sep p = rw (strchr, ==_refl sep) refl
strchr-append (c ∷ a) b sep (h, p) = rw (strchr, h, strchr-append a b sep p) refl

pub strrchr-none : (s : Text) (sep : ℕ) → Without sep s → strrchr s sep ≡ none
unfolding strrchr
strrchr-none [] sep p = refl
strrchr-none (c ∷ s) sep (h, p) = rw (strrchr, h, strrchr-none s sep p) refl

pub strrchr-append :
    (a b : Text) (sep : ℕ) → Without sep b → strrchr (a ++ sep ∷ b) sep ≡ some (length a)
unfolding strrchr
strrchr-append [] b sep p = rw (strrchr, strrchr-none b sep p, ==_refl sep) refl
strrchr-append (c ∷ a) b sep p = rw (strrchr, strrchr-append a b sep p) refl

starts_with-append : (sep b : Text) → starts_with sep (sep ++ b) ≡ true
unfolding starts_with
starts_with-append [] b = refl
starts_with-append (c ∷ sep) b = rw (starts_with, ==_refl c) (starts_with-append sep b)

pub strstr-append :
    (a : Text) (sep : ℕ) (seps b : Text)
    → Without sep a
    → strstr (a ++ (sep ∷ seps ++ b)) (sep ∷ seps) ≡ some (length a)
unfolding strstr starts_with
strstr-append [] sep seps b p =
    rw (strstr, starts_with, ==_refl sep, starts_with-append seps b) refl
strstr-append (c ∷ a) sep seps b (h, p) =
    rw (strstr, starts_with, h, strstr-append a sep seps b p) refl

pub strstr-none : (s : Text) (sep : ℕ) (seps : Text) → Without sep s → strstr s (sep ∷ seps) ≡ none
unfolding strstr starts_with
strstr-none [] sep seps p = refl
strstr-none (c ∷ s) sep seps (h, p) = rw (strstr, starts_with, h, strstr-none s sep seps p) refl
