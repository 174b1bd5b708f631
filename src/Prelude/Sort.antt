-- ===== src/Prelude/Sort.antt =====
-- `sort()` of a vector of strings.
use mathlib.Core.Path.{◌≡◌, refl}
use mathlib.Core.Bool.{◌||◌}
use mathlib.Core.List.{List, [], ◌∷◌}
use Prim.Native.String.{String}
use text.Mathlib.Text.{◌==◌}
use native.Mathlib.Omega.{arith}
use ankaios.Prelude.Tests.{if◌then◌else◌}
use ankaios.Prelude.Strings.{str_le}
use ankaios.Prelude.Maps.{member}

unfoldable pub insert_sorted : String → List String → List String
insert_sorted s [] = s ∷ []
insert_sorted s (t ∷ ts) =
    let rest = insert_sorted s ts in if str_le s t then s ∷ t ∷ ts else t ∷ rest

unfoldable pub sort : List String → List String
sort [] = []
sort (s ∷ ts) = insert_sorted s (sort ts)

member-insert_sorted :
    (a s : String) (ts : List String) → member a (insert_sorted s ts) ≡ (s == a || member a ts)
unfolding insert_sorted member
member-insert_sorted a s [] = refl
member-insert_sorted a s (t ∷ ts) = ground (arith, member-insert_sorted a s ts)

pub member-sort : (a : String) (ts : List String) → member a (sort ts) ≡ member a ts
unfolding sort member
member-sort a [] = refl
member-sort a (t ∷ ts) = ground (arith, member-insert_sorted a t (sort ts), member-sort a ts)
