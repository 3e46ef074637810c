-- ===== src/Bindings/Tokens.antt =====
-- The declarations of Bindings/Bindings OSX Framework/MPObjectiveCTokens.h, with the initializers and
-- the additions of MPObjectiveCTokens.m, and the analyzed unit of MPObjectiveCAnalyzer.m. A property
-- that may be left unset is `none` where it is nil. `V` is the type of the values of constants.
use Prim.Native.String.{String}
use feather.Common.{
  Bool, false, Option, none, some, List, [], ◌∷◌, ◌++◌, contains, string_eq, map, not, is_some,
  if◌then◌else◌, ◌==◌,
}
use feather.Foundation.{Outcome, returned, ◌>>◌, assert}
use feather.Interfaces.Base.{ℤ}

-- `addObject:` to a mutable array that is an instance variable. A message to nil does nothing.
unfoldable pub add_object : {A : Type 0} → Option (List A) → A → Option (List A)
add_object none a = none
add_object (some as') a = some (as' ++ a ∷ [])

-- MPObjCEnumConstant. The declaration that it belongs to stands by its name, by which declarations are
-- compared.
pub record EnumConstant : Type 0 where
  pub enum_declaration : String
  pub name : String
  pub value : Option ℤ

pub record EnumDeclaration : Type 0 where
  pub name : String
  pub backing_type : Option String
  pub enum_constants : List EnumConstant

pub record ConstantDeclaration (V : Type 0) : Type 0 where
  pub name : String
  pub value : Option V
  pub type : Option String
  pub is_const : Bool
  pub is_static : Bool
  pub is_extern : Bool
  pub is_object_reference : Bool

pub record TypeDefinition : Type 0 where
  pub name : String
  pub backing_type : String

pub record PropertyDeclaration : Type 0 where
  pub name : String
  pub type : String
  pub ownership_attribute : Option String
  pub is_read_write : Bool
  pub is_object_type : Bool
  pub getter_name : Option String
  pub setter_name : Option String

pub record InstanceVariableDeclaration : Type 0 where
  pub name : String
  pub type : String

pub record MethodParameter : Type 0 where
  pub name : String
  pub type : String
  pub is_object_type : Bool
  pub selector_component : String

-- MPObjCMethodDeclaration, and its subclasses for instance and class methods, which add nothing.
pub record MethodDeclaration : Type 0 where
  pub selector : String
  pub return_type : String
  pub parameters : List MethodParameter
  pub returns_object_type : Bool

pub record ClassDeclaration : Type 0 where
  pub name : String
  pub super_class_name : Option String
  pub conformed_protocols : List String
  pub property_declarations : List PropertyDeclaration
  pub instance_method_declarations : List MethodDeclaration
  pub class_method_declarations : List MethodDeclaration
  pub instance_variable_declarations : List InstanceVariableDeclaration

pub record ProtocolDeclaration (V : Type 0) : Type 0 where
  pub name : String
  pub type : Option String
  pub conformed_protocols : List String
  pub class_method_declarations : List MethodDeclaration
  pub instance_method_declarations : List MethodDeclaration
  pub property_declarations : List PropertyDeclaration
  pub constant_declarations : Option (List (ConstantDeclaration V))

pub record TranslationUnit (V : Type 0) : Type 0 where
  pub path : Option String
  pub enum_declarations : Option (List EnumDeclaration)
  pub constant_declarations : Option (List (ConstantDeclaration V))
  pub protocol_declarations : Option (List (ProtocolDeclaration V))
  pub class_declarations : Option (List ClassDeclaration)

-- The initializers that set some of the properties; the others are nil and NO.
unfoldable pub new_enum_constant : EnumDeclaration → String → EnumConstant
new_enum_constant d n = record { enum_declaration = d.name; name = n; value = none }

unfoldable pub new_constant :
    {V : Type 0} → String → Option V → Option String → ConstantDeclaration V
new_constant n v t = record {
  name = n;
  value = v;
  type = t;
  is_const = false;
  is_static = false;
  is_extern = false;
  is_object_reference = false;
}

unfoldable pub new_property : (name type : String) → PropertyDeclaration
new_property n t = record {
  name = n;
  type = t;
  ownership_attribute = none;
  is_read_write = false;
  is_object_type = false;
  getter_name = none;
  setter_name = none;
}

unfoldable pub new_parameter : (name type selector_component : String) → MethodParameter
new_parameter n t s = record { name = n; type = t; is_object_type = false; selector_component = s }

unfoldable pub new_enum : String → EnumDeclaration
new_enum n = record { name = n; backing_type = none; enum_constants = [] }

-- `containsObject:` compares constants by `isEqual:`, which compares their names.
unfoldable pub add_enum_constant : EnumConstant → EnumDeclaration → Outcome EnumDeclaration
add_enum_constant c d = do
  assert (not (contains (map (λ (k : EnumConstant). k.name) d.enum_constants) c.name))
  returned (record d { enum_constants = d.enum_constants ++ c ∷ [] })

unfoldable pub new_class : String → Option String → ClassDeclaration
new_class n super = record {
  name = n;
  super_class_name = super;
  conformed_protocols = [];
  property_declarations = [];
  instance_method_declarations = [];
  class_method_declarations = [];
  instance_variable_declarations = [];
}

-- The dictionary of classes by name, which `registerClassDeclaration:` makes and in which it looks for the
-- name, but to which it adds nothing; `classWithName:` reads it.
class_named : String → List (String × ClassDeclaration) → Option ClassDeclaration
class_named n [] = none
class_named n ((k, c) ∷ cs) = if k == n then some c else class_named n cs

unfoldable pub class_with_name :
    Option (List (String × ClassDeclaration)) → String → Option ClassDeclaration
unfolding class_named
class_with_name none n = none
class_with_name (some cs) n = class_named n cs

unfoldable pub register_class_declaration :
    Option (List (String × ClassDeclaration))
    → ClassDeclaration
    → Outcome (Option (List (String × ClassDeclaration)))
unfolding class_with_name
register_class_declaration none c = returned (some [])
register_class_declaration (some cs) c = do
  assert (not (is_some (class_with_name (some cs) c.name)))
  returned (some cs)

unfoldable pub add_conformed_protocol : String → ClassDeclaration → ClassDeclaration
add_conformed_protocol x c = record c { conformed_protocols = c.conformed_protocols ++ x ∷ [] }

unfoldable pub add_instance_method : MethodDeclaration → ClassDeclaration → ClassDeclaration
add_instance_method x c = record c {
  instance_method_declarations = c.instance_method_declarations ++ x ∷ [];
}

unfoldable pub add_class_method : MethodDeclaration → ClassDeclaration → ClassDeclaration
add_class_method x c = record c {
  class_method_declarations = c.class_method_declarations ++ x ∷ [];
}

unfoldable pub add_property : PropertyDeclaration → ClassDeclaration → ClassDeclaration
add_property x c = record c { property_declarations = c.property_declarations ++ x ∷ [] }

unfoldable pub add_instance_variable :
    InstanceVariableDeclaration → ClassDeclaration → ClassDeclaration
add_instance_variable x c = record c {
  instance_variable_declarations = c.instance_variable_declarations ++ x ∷ [];
}

-- `initWithSelector:returnType:` and `addParameter:`.
unfoldable pub new_method : (selector return_type : String) → MethodDeclaration
new_method s r = record {
  selector = s;
  return_type = r;
  parameters = [];
  returns_object_type = false;
}

unfoldable pub add_parameter : MethodParameter → MethodDeclaration → MethodDeclaration
add_parameter x m = record m { parameters = m.parameters ++ x ∷ [] }

module _ {V : Type 0} where
  -- `initWithName:` of a protocol makes no array of constants.
  unfoldable pub new_protocol : String → ProtocolDeclaration V
  new_protocol n = record {
    name = n;
    type = none;
    conformed_protocols = [];
    class_method_declarations = [];
    instance_method_declarations = [];
    property_declarations = [];
    constant_declarations = none;
  }

  unfoldable pub add_super_protocol : String → ProtocolDeclaration V → ProtocolDeclaration V
  add_super_protocol x d = record d { conformed_protocols = d.conformed_protocols ++ x ∷ [] }

  unfoldable pub add_protocol_class_method :
      MethodDeclaration → ProtocolDeclaration V → ProtocolDeclaration V
  add_protocol_class_method x d = record d {
    class_method_declarations = d.class_method_declarations ++ x ∷ [];
  }

  unfoldable pub add_protocol_instance_method :
      MethodDeclaration → ProtocolDeclaration V → ProtocolDeclaration V
  add_protocol_instance_method x d = record d {
    instance_method_declarations = d.instance_method_declarations ++ x ∷ [];
  }

  unfoldable pub add_protocol_property :
      PropertyDeclaration → ProtocolDeclaration V → ProtocolDeclaration V
  add_protocol_property x d = record d { property_declarations = d.property_declarations ++ x ∷ [] }

  unfoldable pub add_protocol_constant :
      ConstantDeclaration V → ProtocolDeclaration V → ProtocolDeclaration V
  unfolding add_object
  add_protocol_constant x d = record d {
    constant_declarations = add_object d.constant_declarations x;
  }

  -- Only the array of enums is made.
  unfoldable pub new_unit : Option String → TranslationUnit V
  new_unit p = record {
    path = p;
    enum_declarations = some [];
    constant_declarations = none;
    protocol_declarations = none;
    class_declarations = none;
  }

  unfoldable pub add_enum_declaration : TranslationUnit V → EnumDeclaration → TranslationUnit V
  unfolding add_object
  add_enum_declaration u d = record u { enum_declarations = add_object u.enum_declarations d }

  unfoldable pub add_constant_declaration :
      TranslationUnit V → ConstantDeclaration V → TranslationUnit V
  unfolding add_object
  add_constant_declaration u d = record u {
    constant_declarations = add_object u.constant_declarations d;
  }

  unfoldable pub add_protocol_declaration :
      TranslationUnit V → ProtocolDeclaration V → TranslationUnit V
  unfolding add_object
  add_protocol_declaration u d = record u {
    protocol_declarations = add_object u.protocol_declarations d;
  }

  unfoldable pub add_class_declaration : TranslationUnit V → ClassDeclaration → TranslationUnit V
  unfolding add_object
  add_class_declaration u d = record u { class_declarations = add_object u.class_declarations d }

  -- `for (declaration in declarations) [unit add…:declaration]`
  unfoldable pub add_each :
      {A : Type 0}
      → (TranslationUnit V → A → TranslationUnit V)
      → List A
      → TranslationUnit V
      → TranslationUnit V
  add_each add [] u = u
  add_each add (d ∷ ds) u = add_each add ds (add u d)

  -- `analyzedTranslationUnitForClangKitTranslationUnit:atPath:`, with the declarations that are found
  -- for the header at the path.
  unfoldable pub analyzed_unit :
      Option String
      → List EnumDeclaration
      → List (ConstantDeclaration V)
      → List (ProtocolDeclaration V)
      → List ClassDeclaration
      → TranslationUnit V
  unfolding new_unit add_each add_enum_declaration add_constant_declaration add_protocol_declaration
      add_class_declaration
  analyzed_unit path enums constants protocols classes = add_each add_class_declaration classes (
      add_each add_protocol_declaration protocols (
        add_each add_constant_declaration constants
          (add_each add_enum_declaration enums (new_unit path))))
