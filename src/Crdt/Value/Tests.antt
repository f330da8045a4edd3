-- ===== src/Crdt/Value/Tests.antt =====
-- The order and the text of values at small values, with naturals for floats.
use para_p2p.Common.{ℕ, ◌≡◌, refl, true, false, lt, gt, [], ◌∷◌, ◌==◌}
use para_p2p.Common.Int.{pos, negsuc, i64_max}
use para_p2p.Common.Order.{IsTotal, nat_ord}
use para_p2p.Crdt.Value.{CrdtValue, Items, Entries, cmp}
use para_p2p.Crdt.Value.Order.{cmp-IsTotal}
use para_p2p.Crdt.Value.Display.{FloatText, write}
use para_p2p.Common.Text.{write_int}
use Prim.Native.Nat.{◌/◌, ◌%◌}
use Prim.Native.String.{◌++◌}

abbrev short : CrdtValue ℕ ℕ
short = CrdtValue.list (Items.cons (CrdtValue.int (pos 1)) Items.nil)

abbrev long : CrdtValue ℕ ℕ
long = CrdtValue.list (Items.cons (CrdtValue.int (pos 1)) (Items.cons CrdtValue.unit Items.nil))

short-long : cmp short long ≡ lt
unfolding cmp
short-long = refl

abbrev empty_map : CrdtValue ℕ ℕ
empty_map = CrdtValue.map Entries.end

map-list : cmp empty_map long ≡ gt
unfolding cmp
map-list = refl

abbrev no_value : CrdtValue ℕ ℕ
no_value = CrdtValue.bool false

bool-list : cmp no_value long ≡ lt
unfolding cmp
bool-list = refl

cmp-IsTotal_example : IsTotal (cmp {F64 = ℕ} {F32 = ℕ})
cmp-IsTotal_example = cmp-IsTotal

-- Naturals that stand for halves.
abbrev halves : FloatText ℕ ℕ
halves = record {
  is_finite = λ x. true;
  fract = λ x. x % 2;
  is_zero = λ x. x == 0;
  one_decimal = λ x. write_int (pos (x / 2)) ++ ".0";
  shortest = λ x. write_int (pos (x / 2)) ++ ".5";
  widen = λ x. x;
}

abbrev mixed : CrdtValue ℕ ℕ
mixed = CrdtValue.map (
    Entries.entry "a" (CrdtValue.float 4) (
      Entries.entry "b"
        (CrdtValue.list (
          Items.cons (CrdtValue.int (negsuc 119)) (
            Items.cons (CrdtValue.f32 3) (
              Items.cons (CrdtValue.str "1")
                (Items.cons (CrdtValue.bytes (1 ∷ 2 ∷ [])) Items.nil)))))
        Entries.end))

write-mixed : write halves mixed ≡ "{a: 2.0, b: [-120, 1.5, \"1\", <2 bytes>]}"
unfolding write
write-mixed = refl

write-largest : write_int i64_max ≡ "9223372036854775807"
unfolding write_int
write-largest = refl
