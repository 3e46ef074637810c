-- ===== src/Bindings/Constants.antt =====
-- Constants added to the declaration of an enum.
use Prim.Native.String.{String}
use mathlib.Core.List.{append_assoc, map-append, append-nil}
use feather.Common.{
  ◌≡◌, refl, Bool, true, ◌&&◌, not, List, [], ◌∷◌, ◌++◌, map, contains, contains-append, string_eq,
  if◌then◌else◌, arith, eq_iff,
}
use feather.Foundation.{Exception, Outcome, returned, raised, ◌>>=◌}
use feather.Bindings.Tokens.{EnumConstant, EnumDeclaration, add_enum_constant}

-- `for (constant in constants) [declaration addEnumConstant:constant]`
unfoldable pub add_enum_constants : List EnumConstant → EnumDeclaration → Outcome EnumDeclaration
unfolding add_enum_constant
add_enum_constants [] d = returned d
add_enum_constants (c ∷ cs) d = add_enum_constant c d >>= add_enum_constants cs

abbrev pub names : List EnumConstant → List String
names cs = map (λ (c : EnumConstant). c.name) cs

-- No name stands in the first list, and none twice.
abbrev pub are_new : List String → List String → Bool
are_new seen [] = true
are_new seen (n ∷ ns) = not (contains seen n) && not (contains ns n) && are_new seen ns

are_new-append :
    (seen : List String) (n : String) (ns : List String)
    → are_new (seen ++ n ∷ []) ns ≡ (not (contains ns n) && are_new seen ns)
are_new-append seen n [] = refl
are_new-append seen n (m ∷ ms) =
    ground
      (arith, contains-append seen (n ∷ []) m, are_new-append seen n ms, eq_iff m n, eq_iff n m)

-- Adding constants one after the other gives all of them in order behind those that the declaration
-- had, if their names are new to it and all different; if not, an assertion stops it.
pub add_enum_constants_lem :
    (cs : List EnumConstant) (d : EnumDeclaration)
    → add_enum_constants cs d ≡ (
        if are_new (names d.enum_constants) (names cs)
        then returned (record d { enum_constants = d.enum_constants ++ cs })
        else raised Exception.assertion)
unfolding add_enum_constants add_enum_constant
add_enum_constants_lem [] d = simp append-nil refl
add_enum_constants_lem (c ∷ cs) d =
    let rest =
      add_enum_constants_lem cs (record d { enum_constants = d.enum_constants ++ c ∷ [] }) in
    let named = map-append (λ (k : EnumConstant). k.name) d.enum_constants (c ∷ []) in
    let joined = append_assoc d.enum_constants (c ∷ []) cs in
    ground (arith, rest, named, joined, are_new-append (names d.enum_constants) c.name (names cs))
