-- ===== src/Collection/Operands/Tests.antt =====
-- Two operands, of which the second is removed.
use xmms2remote.Prelude.{
  ℕ, zero, suc, ◌≡◌, ◌==◌, refl, ap, Bool, true, false, List, [], ◌∷◌, length, arith, some,
}
use xmms2remote.Value.{Value, node, end, no_operands}
use xmms2remote.ValueList.{ValueList, Heap, pos}
use xmms2remote.ValueList.Inv.{IsValid, contents}
use xmms2remote.Collection.Operands.{operands_remove}
use xmms2remote.Collection.Operands.Removal.{OperandRemoved, place_of, operands_remove_refines}

blank : ℕ → List Value
blank zero = []
blank (suc n) = Value.nothing ∷ blank n

length-blank : (n : ℕ) → length (blank n) ≡ n
unfolding blank
length-blank zero = refl
length-blank (suc n) = ap suc (length-blank n)

abbrev heap : Heap
heap = record { grants = λ n. true; fresh = blank; fresh_length = length-blank }

abbrev operand_of : ℕ → Value
operand_of t = Value.coll (node t end [] no_operands)

-- The operand that is meant is the one of this type.
abbrev is_idlist : Value → Bool
is_idlist (Value.coll (node t attrs ids ops)) = t == 9
is_idlist v = false

-- Another iterator stands on the last.
abbrev operands : ValueList
operands = record {
  list = operand_of 1 ∷ operand_of 9 ∷ operand_of 2 ∷ [];
  size = 3;
  allocated = 3;
  restricted = true;
  restricttype = 4;
  iterators = pos 2 ∷ [];
}

operands-IsValid : IsValid operands
operands-IsValid = record { whole = refl; room = omega arith; within = (omega arith, tt) }

second : place_of is_idlist (contents operands) ≡ some 1
unfolding place_of
second = refl

operands_remove_refines_example :
    OperandRemoved is_idlist heap operands
      (place_of is_idlist (contents operands))
      (operands_remove is_idlist heap 4 operands)
operands_remove_refines_example =
    operands_remove_refines is_idlist heap operands 4 operands-IsValid (omega arith)
