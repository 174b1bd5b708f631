-- ===== src/Prelude/Numbers.antt =====
-- `str::parse::<usize>` on a 64-bit target, and the element at a position.
use Prim.Native.Nat.{ℕ, zero, suc, ◌+◌, ◌-◌, ◌*◌}
use Prim.Native.Char.{code}
use Prim.Native.String.{String, [], ◌∷◌}
use mathlib.Core.Bool.{◌&&◌}
use mathlib.Core.Option.{Option, none, some}
use mathlib.Core.List.{List}
use ankaios.Prelude.Tests.{leb, eqb, if◌then◌else◌}

-- The digits behind a value; a value that no 64 bits hold is an overflow.
unfoldable pub parse_digits : ℕ → String → Option ℕ
parse_digits value [] = some value
parse_digits value (c ∷ s) =
    let next = 10 * value + (code c - 48) in
    let rest = parse_digits next s in
    if leb 48 (code c) && leb (code c) 57 && leb next 18446744073709551615 then rest else none

unfoldable pub parse_unsigned : String → Option ℕ
parse_unsigned [] = none
parse_unsigned (c ∷ s) = parse_digits 0 (c ∷ s)

-- A plus sign may stand in front.
unfoldable pub parse_usize : String → Option ℕ
parse_usize [] = none
parse_usize (c ∷ s) = if eqb (code c) 43 then parse_unsigned s else parse_unsigned (c ∷ s)

abbrev pub get_elem? {ℓ} : {A : Type ℓ} → List A → ℕ → Option A
get_elem? List.[] n = none
get_elem? (List.◌∷◌ x xs) zero = some x
get_elem? (List.◌∷◌ x xs) (suc n) = get_elem? xs n
