-- ===== src/Value/Text.antt =====
-- C strings and zero-terminated arrays inside longer buffers, and `strcmp`.
use Prim.Native.Char.{code}
use Prim.Native.String.{String}
use xmms2remote.Prelude.{
  ℕ, ◌==◌, ltb, if◌then◌else◌, List, [], ◌++◌, ◌∷◌, ◌≡◌, refl, ◌≢◌, All, arith,
}

-- The code points of a text: its bytes, if it is ASCII.
abbrev pub codes : String → List ℕ
codes String.[] = []
codes (String.◌∷◌ c s) = code c ∷ codes s

-- What stands before the first zero: the string (or the id list) that C reads from the array.
unfoldable pub until_zero : List ℕ → List ℕ
until_zero [] = []
until_zero (x ∷ xs) = let rest = until_zero xs in if x == 0 then [] else x ∷ rest

-- No zero inside.
abbrev pub ZeroFree : List ℕ → Type 0
ZeroFree = All (λ x. x ≢ 0)

pub until_zero-ZeroFree : (xs : List ℕ) → ZeroFree xs → until_zero xs ≡ xs
unfolding until_zero
until_zero-ZeroFree [] h = refl
until_zero-ZeroFree (x ∷ xs) h = ground (arith, h.0, until_zero-ZeroFree xs h.1)

pub until_zero-append : (xs ys : List ℕ) → ZeroFree xs → until_zero (xs ++ 0 ∷ ys) ≡ xs
unfolding until_zero
until_zero-append [] ys h = refl
until_zero-append (x ∷ xs) ys h = ground (arith, h.0, until_zero-append xs ys h.1)

-- The sign of a `strcmp`.
pub data Sign : Type 0 where
  less same greater : Sign

-- `strcmp`: the first difference of the bytes decides, and the NUL is below every byte.
unfoldable pub strcmp : List ℕ → List ℕ → Sign
strcmp [] [] = same
strcmp [] (b ∷ t) = less
strcmp (a ∷ s) [] = greater
strcmp (a ∷ s) (b ∷ t) =
    let rest = strcmp s t in if ltb a b then less else if ltb b a then greater else rest
