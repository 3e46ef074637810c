-- ===== src/Interfaces/Embedded.antt =====
-- MPEmbeddedObject: Feather/Sources/Model/MPEmbeddedObject.h.
use Prim.Native.String.{String}
use feather.Common.{Bool, Option, List}
use feather.Interfaces.Base.{Platform, Getter, Effect, Action, Attempt, Dictionary}

module _ (p : Platform) where
  open p use {Any, Class, CouchDatabase, ManagedObject, EmbeddedObject, EmbeddingObject}

  -- The protocol MPEmbeddingObject; an optional method that is not there is `none`.
  pub record EmbeddingObjectProtocol : Type 0 where
    pub needs_save : EmbeddingObject → Getter p Bool
    pub mark_needs_save : EmbeddingObject → Effect p
    pub mark_needs_no_save : EmbeddingObject → Effect p
    pub save : EmbeddingObject → Attempt p Bool
    pub embedded_object_with_identifier :
        EmbeddingObject → Option (String → Getter p (Option EmbeddedObject))
    pub cache_embedded_object_by_identifier : EmbeddingObject → Option (EmbeddedObject → Effect p)
    pub cache_value :
        EmbeddingObject → Option (Option Any → (property : String) → (changed : Bool) → Effect p)

  -- The class MPEmbeddedObject.
  pub record EmbeddedObjectClass : Type 0 where
    pub identifier : EmbeddedObject → Getter p String
    pub embedding_object : EmbeddedObject → Getter p (Option EmbeddingObject)
    pub embedding_key : EmbeddedObject → Getter p (Option String)
    pub changed_names : EmbeddedObject → Getter p (List String)
    pub database_for_model_property : EmbeddedObject → String → Getter p CouchDatabase
    pub init_with_embedding_object :
        EmbeddingObject → (embedding_key : String) → Action p EmbeddedObject
    pub init_with_dictionary :
        Dictionary String Any → EmbeddingObject → (embedding_key : String) → Action p EmbeddedObject
    pub dictionary_representation : EmbeddedObject → Action p (Dictionary String Any)
    pub externalize : EmbeddedObject → Action p String
    pub json_string_representation : EmbeddedObject → Attempt p (Option String)
    pub embedding_managed_object : EmbeddedObject → Getter p (Option ManagedObject)
    pub embedded_object_with_json_string :
        (receiver : Class)
        → String
        → EmbeddingObject
        → (embedding_key : String) → Action p EmbeddedObject
    pub embedded_object_with_dictionary :
        (receiver : Class)
        → Dictionary String Any
        → EmbeddingObject
        → (embedding_key : String) → Action p EmbeddedObject
    pub object_with_referable_dictionary_representation :
        (receiver : Class) → Dictionary String Any → Action p (Option Any)
    pub save_with_error : EmbeddedObject → Attempt p Bool
    pub deep_save_with_error : EmbeddedObject → Attempt p Bool
    pub deep_save : EmbeddedObject → Action p Bool
    pub save : EmbeddedObject → Action p Bool
