-- ===== src/Bindings/Tests.antt =====
-- Tests of the declarations of headers.
use Prim.Native.String.{String}
use feather.Common.{◌≡◌, refl, ℕ, none, some, List, [], ◌∷◌, ◌++◌, if◌then◌else◌, string_eq}
use feather.Foundation.{Exception, returned, raised}
use feather.Bindings.Tokens.{
  EnumConstant, EnumDeclaration, new_enum, new_class, new_method, new_protocol, analyzed_unit,
  register_class_declaration, class_with_name,
}
use feather.Bindings.Additions.{
  Addition, conformed_protocol, instance_method, class_method, add_all, with_additions,
  add_all-with_additions, analyzed_unit_enums,
}
use feather.Bindings.Constants.{add_enum_constants, are_new, names, add_enum_constants_lem}

abbrev constant : String → EnumConstant
constant n = record { enum_declaration = "Kind"; name = n; value = none }

abbrev additions : List Addition
additions =
    instance_method (new_method "init" "id")
    ∷ conformed_protocol "NSCopying"
    ∷ class_method (new_method "new" "id")
    ∷ instance_method (new_method "copy" "id")
    ∷ []

add_all-with_additions_example :
    add_all additions (new_class "A" (some "NSObject"))
    ≡ with_additions additions (new_class "A" (some "NSObject"))
add_all-with_additions_example = add_all-with_additions additions (new_class "A" (some "NSObject"))

abbrev kind : EnumDeclaration
kind = new_enum "Kind"

add_enum_constants_lem_example :
    add_enum_constants (constant "a" ∷ constant "b" ∷ constant "a" ∷ []) kind ≡ (
      if are_new (names kind.enum_constants) ("a" ∷ "b" ∷ "a" ∷ [])
      then returned (record kind {
        enum_constants = kind.enum_constants ++ constant "a" ∷ constant "b" ∷ constant "a" ∷ [];
      })
      else raised Exception.assertion)
add_enum_constants_lem_example =
    add_enum_constants_lem (constant "a" ∷ constant "b" ∷ constant "a" ∷ []) kind

twice :
    add_enum_constants (constant "a" ∷ constant "b" ∷ constant "a" ∷ []) kind
    ≡ raised Exception.assertion
unfolding add_enum_constants new_enum
twice = refl

once :
    add_enum_constants (constant "a" ∷ constant "b" ∷ []) kind
    ≡ returned (record kind { enum_constants = constant "a" ∷ constant "b" ∷ [] })
unfolding add_enum_constants new_enum
once = refl

analyzed_unit_enums_example :
    analyzed_unit {V = ℕ}
      (some "A.h")
      (kind ∷ [])
      []
      (new_protocol "P" ∷ [])
      (new_class "A" none ∷ [])
    ≡ record {
      path = some "A.h";
      enum_declarations = some (kind ∷ []);
      constant_declarations = none;
      protocol_declarations = none;
      class_declarations = none;
    }
analyzed_unit_enums_example =
    analyzed_unit_enums (some "A.h") (kind ∷ []) [] (new_protocol "P" ∷ [])
      (new_class "A" none ∷ [])

-- A class that is registered is not found.
registered : register_class_declaration none (new_class "A" none) ≡ returned (some [])
unfolding register_class_declaration
registered = refl

unfound : class_with_name (some []) "A" ≡ none
unfolding class_with_name
unfound = refl
