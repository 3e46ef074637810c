-- ===== src/Bindings/Additions.antt =====
-- What additions to units and to declarations of classes leave.
use Prim.Native.String.{String}
use mathlib.Core.List.{append-nil, append_assoc}
use feather.Common.{◌≡◌, refl, List, [], ◌∷◌, ◌++◌, ◌∙◌, ap, Option, none, some, arith}
use feather.Bindings.Tokens.{
  PropertyDeclaration, MethodDeclaration, InstanceVariableDeclaration, ClassDeclaration,
  EnumDeclaration, ConstantDeclaration, ProtocolDeclaration, TranslationUnit,
  add_conformed_protocol, add_property, add_instance_method, add_class_method,
  add_instance_variable, add_object, new_unit, add_enum_declaration, add_constant_declaration,
  add_protocol_declaration, add_class_declaration, add_each, analyzed_unit,
}

-- One addition to the declaration of a class.
pub data Addition : Type 0 where
  conformed_protocol : String → Addition
  property : PropertyDeclaration → Addition
  instance_method : MethodDeclaration → Addition
  class_method : MethodDeclaration → Addition
  instance_variable : InstanceVariableDeclaration → Addition

pub add : Addition → ClassDeclaration → ClassDeclaration
unfolding add_conformed_protocol add_property add_instance_method add_class_method
    add_instance_variable
add (conformed_protocol x) c = add_conformed_protocol x c
add (property x) c = add_property x c
add (instance_method x) c = add_instance_method x c
add (class_method x) c = add_class_method x c
add (instance_variable x) c = add_instance_variable x c

pub add_all : List Addition → ClassDeclaration → ClassDeclaration
unfolding add
add_all [] c = c
add_all (a ∷ as') c = add_all as' (add a c)

-- What is added of each kind, in order.
abbrev protocols_of : List Addition → List String
protocols_of [] = []
protocols_of (conformed_protocol x ∷ as') = x ∷ protocols_of as'
protocols_of (property x ∷ as') = protocols_of as'
protocols_of (instance_method x ∷ as') = protocols_of as'
protocols_of (class_method x ∷ as') = protocols_of as'
protocols_of (instance_variable x ∷ as') = protocols_of as'

abbrev properties_of : List Addition → List PropertyDeclaration
properties_of [] = []
properties_of (property x ∷ as') = x ∷ properties_of as'
properties_of (conformed_protocol x ∷ as') = properties_of as'
properties_of (instance_method x ∷ as') = properties_of as'
properties_of (class_method x ∷ as') = properties_of as'
properties_of (instance_variable x ∷ as') = properties_of as'

abbrev instance_methods_of : List Addition → List MethodDeclaration
instance_methods_of [] = []
instance_methods_of (instance_method x ∷ as') = x ∷ instance_methods_of as'
instance_methods_of (conformed_protocol x ∷ as') = instance_methods_of as'
instance_methods_of (property x ∷ as') = instance_methods_of as'
instance_methods_of (class_method x ∷ as') = instance_methods_of as'
instance_methods_of (instance_variable x ∷ as') = instance_methods_of as'

abbrev class_methods_of : List Addition → List MethodDeclaration
class_methods_of [] = []
class_methods_of (class_method x ∷ as') = x ∷ class_methods_of as'
class_methods_of (conformed_protocol x ∷ as') = class_methods_of as'
class_methods_of (property x ∷ as') = class_methods_of as'
class_methods_of (instance_method x ∷ as') = class_methods_of as'
class_methods_of (instance_variable x ∷ as') = class_methods_of as'

abbrev variables_of : List Addition → List InstanceVariableDeclaration
variables_of [] = []
variables_of (instance_variable x ∷ as') = x ∷ variables_of as'
variables_of (conformed_protocol x ∷ as') = variables_of as'
variables_of (property x ∷ as') = variables_of as'
variables_of (instance_method x ∷ as') = variables_of as'
variables_of (class_method x ∷ as') = variables_of as'

-- A class with what is added to it, kind by kind.
abbrev pub with_additions : List Addition → ClassDeclaration → ClassDeclaration
with_additions as' c = record c {
  conformed_protocols = c.conformed_protocols ++ protocols_of as';
  property_declarations = c.property_declarations ++ properties_of as';
  instance_method_declarations = c.instance_method_declarations ++ instance_methods_of as';
  class_method_declarations = c.class_method_declarations ++ class_methods_of as';
  instance_variable_declarations = c.instance_variable_declarations ++ variables_of as';
}

-- After any sequence of additions a declaration of a class has, of each kind, what it had and then what
-- was added of that kind, in the order of the additions; its name and its superclass stay.
pub add_all-with_additions :
    (as' : List Addition) (c : ClassDeclaration) → add_all as' c ≡ with_additions as' c
unfolding add_all add add_conformed_protocol add_property add_instance_method add_class_method
    add_instance_variable
add_all-with_additions [] c = simp append-nil refl
add_all-with_additions (conformed_protocol x ∷ as') c =
    simp append_assoc at (add_all-with_additions as' (add_conformed_protocol x c))
add_all-with_additions (property x ∷ as') c =
    simp append_assoc at (add_all-with_additions as' (add_property x c))
add_all-with_additions (instance_method x ∷ as') c =
    simp append_assoc at (add_all-with_additions as' (add_instance_method x c))
add_all-with_additions (class_method x ∷ as') c =
    simp append_assoc at (add_all-with_additions as' (add_class_method x c))
add_all-with_additions (instance_variable x ∷ as') c =
    simp append_assoc at (add_all-with_additions as' (add_instance_variable x c))

module _ {V : Type 0} where
  enums_added :
      (ds xs : List EnumDeclaration) (u : TranslationUnit V)
      → u.enum_declarations ≡ some xs
      → add_each add_enum_declaration ds u ≡ record u { enum_declarations = some (xs ++ ds) }
  unfolding add_each add_enum_declaration add_object
  enums_added [] xs u e = rw (append-nil xs) (ground (arith, e))
  enums_added (d ∷ ds) xs u e =
      simp append_assoc at
        (enums_added ds (xs ++ d ∷ []) (add_enum_declaration u d) (ground (arith, e)))

  constants_added :
      (ds : List (ConstantDeclaration V)) (u : TranslationUnit V)
      → u.constant_declarations ≡ none
      → add_each add_constant_declaration ds u ≡ u
  unfolding add_each add_constant_declaration add_object
  constants_added [] u e = refl
  constants_added (d ∷ ds) u e =
      constants_added ds (add_constant_declaration u d) (ground (arith, e)) ∙ ground (arith, e)

  protocols_added :
      (ds : List (ProtocolDeclaration V)) (u : TranslationUnit V)
      → u.protocol_declarations ≡ none
      → add_each add_protocol_declaration ds u ≡ u
  unfolding add_each add_protocol_declaration add_object
  protocols_added [] u e = refl
  protocols_added (d ∷ ds) u e =
      protocols_added ds (add_protocol_declaration u d) (ground (arith, e)) ∙ ground (arith, e)

  classes_added :
      (ds : List ClassDeclaration) (u : TranslationUnit V)
      → u.class_declarations ≡ none
      → add_each add_class_declaration ds u ≡ u
  unfolding add_each add_class_declaration add_object
  classes_added [] u e = refl
  classes_added (d ∷ ds) u e =
      classes_added ds (add_class_declaration u d) (ground (arith, e)) ∙ ground (arith, e)

  -- The unit that the analyzer makes of a header has the declarations of enums that were found, in
  -- order, and none of the constants, protocols and classes: their arrays are nil.
  pub analyzed_unit_enums :
      (path : Option String) (enums : List EnumDeclaration)
      (constants : List (ConstantDeclaration V)) (protocols : List (ProtocolDeclaration V))
      (classes : List ClassDeclaration)
      → analyzed_unit path enums constants protocols classes ≡ record {
        path = path;
        enum_declarations = some enums;
        constant_declarations = none;
        protocol_declarations = none;
        class_declarations = none;
      }
  unfolding analyzed_unit new_unit
  analyzed_unit_enums path enums constants protocols classes =
      let u : TranslationUnit V = record (new_unit path) { enum_declarations = some enums } in
      let with_classes = λ (v : TranslationUnit V). add_each add_class_declaration classes v in
      let with_protocols =
        λ (v : TranslationUnit V). with_classes (add_each add_protocol_declaration protocols v) in
      let with_constants =
        λ (v : TranslationUnit V). with_protocols (add_each add_constant_declaration constants v) in
      ap with_constants (enums_added enums [] (new_unit path) refl)
      ∙ (ap with_protocols (constants_added constants u refl)
          ∙ (ap with_classes (protocols_added protocols u refl) ∙ classes_added classes u refl))
