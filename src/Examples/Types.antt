-- ===== src/Examples/Types.antt =====
-- The comparison of types of the machine in Data holds of equal types alone.
use bento_box.Base.{◌≡◌, ◌↔◌, true, List, [], ◌∷◌, arith, nat_eqb}
use bento_box.Base.Int.{ℤ, pos, negsuc, eqb_ℤ}
use bento_box.Proto.Value.{TypePrimitive, ProtoType, type_not_set, primitive_type, array_type}
use bento_box.Machine.{ComparesTypes}
use bento_box.Examples.Data.{machine, number_of, same_dimensions, same_type}

eqb_ℤ_iff : (a b : ℤ) → (eqb_ℤ a b ≡ true) ↔ (a ≡ b)
eqb_ℤ_iff (pos m) (pos n) = ground arith
eqb_ℤ_iff (pos m) (negsuc n) = ground arith
eqb_ℤ_iff (negsuc m) (pos n) = ground arith
eqb_ℤ_iff (negsuc m) (negsuc n) = ground arith

number_of_iff : (p q : TypePrimitive) → (nat_eqb (number_of p) (number_of q) ≡ true) ↔ (p ≡ q)
number_of_iff p q = ground arith

same_dimensions_iff : (ds es : List ℤ) → (same_dimensions ds es ≡ true) ↔ (ds ≡ es)
same_dimensions_iff [] [] = ground arith
same_dimensions_iff [] (e ∷ es) = ground arith
same_dimensions_iff (d ∷ ds) [] = ground arith
same_dimensions_iff (d ∷ ds) (e ∷ es) = ground (arith, eqb_ℤ_iff d e, same_dimensions_iff ds es)

same_type_iff : (s t : ProtoType) → (same_type s t ≡ true) ↔ (s ≡ t)
same_type_iff type_not_set t = ground arith
same_type_iff (primitive_type p) (primitive_type q) = ground (arith, number_of_iff p q)
same_type_iff (primitive_type p) t = ground arith
same_type_iff (array_type ds p) (array_type es q) =
    ground (arith, number_of_iff p q, same_dimensions_iff ds es)
same_type_iff (array_type ds p) t = ground arith

pub machine-ComparesTypes : ComparesTypes machine
machine-ComparesTypes = record { equal = same_type_iff }
