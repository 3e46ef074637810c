-- ===== src/Controller/Search/Tests.antt =====
-- A search by name and by role.
use feather.Common.{
  all, contains, if◌then◌else◌, ◌==◌, nat_eq, list_eq, string_eq, ℕ, ◌≡◌, refl, Bool, ◌||◌, none,
  List, [], ◌∷◌,
}
use feather.Controller.Search.{Searcher, several, answer, handle_search}
use feather.Controller.Search.Meet.{meets, handle_search-meets}

abbrev by_name_and_role : Searcher ℕ
by_name_and_role = record {
  singular = "contributor";
  plural = "contributors";
  responds = λ s. s == "contributorsForName:" || s == "contributorsForRole:";
  find_many = λ s v. if s == "contributorsForName:" then v ∷ 8 ∷ [] else 8 ∷ 9 ∷ v ∷ [];
  find_one = λ s v. none;
  capital = λ s. s;
  pick = λ os. none;
  arrange = λ os. os;
}

handle_search-meets_example :
    (c : Bool) × (xs : List ℕ) × (several (8 ∷ []) ≡ answer by_name_and_role c xs)
    × ((o : ℕ) → contains xs o ≡ all (meets by_name_and_role o) (("Name", 1) ∷ ("Role", 2) ∷ []))
unfolding handle_search
handle_search-meets_example =
    handle_search-meets by_name_and_role ("Name", 1) ("Role", 2) [] (several (8 ∷ [])) refl
