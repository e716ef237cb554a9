-- ===== src/Url/Parse/Search.antt =====
-- How a URL is split at a separator.
use xmms2remote.Prelude.{
  ℕ, ◌+◌, ◌≡◌, refl, sym, [], ◌∷◌, ◌++◌, none, some, length, take-append_at, drop-append_at,
  append_assoc, length-append,
}
use xmms2remote.Value.{Text}
use xmms2remote.Value.Text.{codes}
use xmms2remote.Value.Search.{
  Without, strchr-none, strchr-append, strrchr-none, strrchr-append, strstr-append,
}
use xmms2remote.Url.Parse.{parts_at, strstrsplit, strchrsplit, strrchrsplit}

-- The two sides of a separator.
pub parts_at-append :
    (a sep b : Text) → parts_at (a ++ (sep ++ b)) (length sep) (some (length a)) ≡ some (a, b)
unfolding parts_at
parts_at-append a sep b =
    rw
      (
        take-append_at (length a) a (sep ++ b) refl,
        ← append_assoc a sep b,
        drop-append_at (length a + length sep) (a ++ sep) b (sym (length-append a sep)),
      )
      refl

pub strchrsplit-append :
    (a b : Text) (sep : ℕ) → Without sep a → strchrsplit (a ++ sep ∷ b) sep ≡ some (a, b)
unfolding strchrsplit
strchrsplit-append a b sep p = rw (strchr-append a b sep p) (parts_at-append a (sep ∷ []) b)

pub strchrsplit-none : (s : Text) (sep : ℕ) → Without sep s → strchrsplit s sep ≡ none
unfolding strchrsplit parts_at
strchrsplit-none s sep p = rw (strchr-none s sep p) refl

pub strrchrsplit-append :
    (a b : Text) (sep : ℕ) → Without sep b → strrchrsplit (a ++ sep ∷ b) sep ≡ some (a, b)
unfolding strrchrsplit
strrchrsplit-append a b sep p = rw (strrchr-append a b sep p) (parts_at-append a (sep ∷ []) b)

pub strrchrsplit-none : (s : Text) (sep : ℕ) → Without sep s → strrchrsplit s sep ≡ none
unfolding strrchrsplit parts_at
strrchrsplit-none s sep p = rw (strrchr-none s sep p) refl

pub strstrsplit-append :
    (a b : Text)
    → Without b':' a
    → strstrsplit (a ++ (codes "://" ++ b)) (codes "://") ≡ some (a, b)
unfolding strstrsplit
strstrsplit-append a b p =
    rw (strstr-append a b':' (codes "//") b p) (parts_at-append a (codes "://") b)
