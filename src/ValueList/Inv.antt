-- ===== src/ValueList/Inv.antt =====
-- What holds of every list value between calls, and the list of values that it stands for.
use xmms2remote.Prelude.{◌≤◌, ◌≡◌, List, All, length, take, ℕ}
use xmms2remote.Value.{Value}
use xmms2remote.ValueList.{ValueList, ℤ, pos, negsuc}

-- The values of the list, which the cells in use hold.
abbrev pub contents : ValueList → List Value
contents l = take l.size l.list

-- An iterator stands on a value, behind the last, or (after `xmmsv_list_iter_prev`) just before the
-- first.
abbrev pub Within : ℕ → ℤ → Type 0
Within n (pos q) = q ≤ n
Within n (negsuc q) = q ≡ 0

pub record IsValid (l : ValueList) : Type 0 where
  pub whole : length l.list ≡ l.allocated
  pub room : l.size ≤ l.allocated
  pub within : All (Within l.size) l.iterators
