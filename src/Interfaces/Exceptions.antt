-- ===== src/Interfaces/Exceptions.antt =====
-- The exceptions of Feather/Sources/Utilities/MPException.h with the arguments of their initializers, and
-- their names and reasons in MPException.m. A selector and a class are their names; a string is the list
-- of its characters' codes.

use feather.Common.{ℕ, List, ◌++◌}
use feather.Json.{codes}

-- One constructor for each class but the base class. An exception that says that a method or an
-- initializer is private is one of an unexpected selector.
pub data FeatherException : Type 0 where
  unexpected_selector : (selector : List ℕ) → FeatherException
  method_is_private : (selector : List ℕ) → FeatherException
  init_is_private : (selector : List ℕ) → FeatherException
  invalid_init : (selector expected_selector : List ℕ) → FeatherException
  illegal_state : (reason : List ℕ) → FeatherException
  abstract_method : (selector : List ℕ) → FeatherException
  unexpected_type : (type_string : List ℕ) → FeatherException
  unexpected_state : (reason : List ℕ) → FeatherException
  readonly_cached_property : (property_key class : List ℕ) → FeatherException
  abstract_class : (class : List ℕ) → FeatherException

-- The name of an exception is that of its class.
unfoldable pub exception_name : FeatherException → List ℕ
exception_name (unexpected_selector s) = codes "MPUnexpectedSelectorException"
exception_name (method_is_private s) = codes "MPMethodIsPrivateException"
exception_name (init_is_private s) = codes "MPInitIsPrivateException"
exception_name (invalid_init s t) = codes "MPInvalidInitException"
exception_name (illegal_state r) = codes "MPIllegalStateException"
exception_name (abstract_method s) = codes "MPAbstractMethodException"
exception_name (unexpected_type t) = codes "MPUnexpectedTypeException"
exception_name (unexpected_state r) = codes "MPUnexpectedStateExpection"
exception_name (readonly_cached_property k c) = codes "MPReadonlyCachedPropertyException"
exception_name (abstract_class c) = codes "MPAbstractClassException"

dont_call : List ℕ → List ℕ
dont_call s = codes "Don't call " ++ (s ++ codes " on this kind of object.")

unfoldable pub exception_reason : FeatherException → List ℕ
unfolding dont_call
exception_reason (unexpected_selector s) = dont_call s
exception_reason (method_is_private s) = dont_call s
exception_reason (init_is_private s) = dont_call s
exception_reason (invalid_init s t) =
    codes "Don't init with " ++ (s ++ (codes ". Init with " ++ (t ++ codes " instead.")))
exception_reason (illegal_state r) = r
exception_reason (abstract_method s) = codes "Subclass needs to implement " ++ (s ++ codes ".")
exception_reason (unexpected_type t) = t
exception_reason (unexpected_state r) = r
exception_reason (readonly_cached_property k c) =
    codes "Property '" ++ (k ++ codes "' should be readwrite.")
exception_reason (abstract_class c) =
    codes "Objects with class " ++ (c ++ codes " should not be instantiated.")
