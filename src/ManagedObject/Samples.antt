-- ===== src/ManagedObject/Samples.antt =====
-- An object, a class and surroundings, for the tests.
use feather.Common.{◌==◌, nat_eq, string_eq, list_eq, true, false, none, [], ◌∷◌}
use feather.Couch.Store.{Stored, new_model}
use feather.ManagedObject.{Object, Class, Surroundings}

abbrev pub contributor_class : Class
contributor_class = record {
  embedded_properties = "address" ∷ [];
  tracks_session_id = false;
  is_embedded_class = λ c. c == "MPAddress";
}

abbrev pub at_seven : Surroundings
at_seven = record {
  now = 7;
  session_id = "session";
  delegate_counts = true;
  uuid = "uuid";
  parse = λ s. none;
}

abbrev pub new_object : Object Stored
new_object = record {
  model = new_model;
  is_new = true;
  deleted_document_id = none;
  cached_tag = none;
  embedded_needs_save = λ key. false;
  posted = [];
  changes_counted = 0;
}
