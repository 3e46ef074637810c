-- ===== src/Controller/Changes.antt =====
-- `didChangeDocument:forObject:source:`: what is posted when a document has changed.
use feather.Common.{
  if◌then◌else◌, ◌==◌, nat_eq, string_eq, list_eq, ℕ, Bool, false, ◌&&◌, some, List, ◌∷◌,
}
use feather.ManagedObject.{Change, add, remove, update, Source, recent, past, Object}

-- Whether a revision's identifier begins with "1-" (`isMatchedByRegex:@"^1-"`).
is_first_generation : List ℕ → Bool
is_first_generation (a ∷ b ∷ _) = a == 49 && b == 45
is_first_generation _ = false

pub change_type : Bool → Bool → Change
change_type is_new is_deletion = if is_new then add else if is_deletion then remove else update

-- From the codes of the current revision's identifier and whether it is a deletion.
pub did_change_document : {M : Type 0} → List ℕ → Bool → Source → Object M → Object M
unfolding is_first_generation change_type
did_change_document revision_id is_deletion source o =
    let change = change_type (is_first_generation revision_id) is_deletion in
    record o { posted = past change (some source) ∷ recent change (some source) ∷ o.posted }
