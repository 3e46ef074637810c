-- ===== src/Contributors/Claim.antt =====
-- Who is "me": `isMe`, `setIsMe:` of Feather/Sources/Model/MPContributor.m, with `existingMe` and
-- `willDeleteObject:` of MPContributorsController.m and the queries of
-- MPContributorIdentitiesController. An identity document links a contributor to the identifier of
-- the user's shared package. The state is the list of the saved identities, in the order in which
-- the views return them, and the controller's `_me`.
mod Me
mod Tests
use Prim.Native.String.{String}
use feather.Common.{
  filter, contains, if◌then◌else◌, ◌==◌, nat_eq, list_eq, string_eq, is_some, ℕ, Bool, ◌&&◌, not,
  Option, none, some, List, [], ◌∷◌, ◌++◌, map,
}
use feather.Foundation.{Exception, Outcome, returned, raised}

pub record Identity : Type 0 where
  pub handle : ℕ
  pub contributor : ℕ
  pub identifier : String

pub record Roster : Type 0 where
  pub identities : List Identity
  pub me : Option ℕ

-- What the code asks of Couchbase Lite: whether a contributor's document still loads, whether a
-- deletion and a save succeed (the code ignores the results), and the pointer of a new identity.
pub record Database : Type 0 where
  pub loads : ℕ → Bool
  pub deletes : Identity → Bool
  pub saves : Identity → Bool
  pub fresh : List Identity → ℕ

-- The identity that `setIsMe:` finds is one of this contributor with this identifier.
abbrev pub claims : String → ℕ → Identity → Bool
claims identifier c i = i.contributor == c && i.identifier == identifier

-- `contributorIdentitiesForContributor:`, `contributorIdentitiesWithIdentifier:`,
-- `contributorsWithContributorIdentifier:`
pub identities_for_contributor : List Identity → ℕ → List Identity
identities_for_contributor identities c = filter (λ i. i.contributor == c) identities

pub identities_with_identifier : List Identity → String → List Identity
identities_with_identifier identities identifier =
    filter (λ i. i.identifier == identifier) identities

pub contributors_with_identifier : Database → List Identity → String → List ℕ
contributors_with_identifier db identities identifier =
    filter db.loads (map (λ i. i.contributor) (identities_with_identifier identities identifier))

pub is_me : String → List Identity → ℕ → Bool
is_me identifier identities c =
    contains (map (λ i. i.identifier) (identities_for_contributor identities c)) identifier

abbrev first_object : List Identity → Option Identity
first_object [] = none
first_object (i ∷ is) = some i

-- The first identity of the contributor with the identifier.
pub own_identity : String → List Identity → ℕ → Option Identity
own_identity identifier identities c =
    first_object
      (filter (λ i. i.identifier == identifier) (identities_for_contributor identities c))

-- `deleteDocument` takes the document out of every later query, if it succeeds.
pub delete_identity : Database → Identity → List Identity → List Identity
delete_identity db i identities =
    if db.deletes i then filter (λ j. not (j.handle == i.handle)) identities else identities

-- `setIsMe:NO`
pub set_is_not_me : Database → String → List Identity → ℕ → List Identity
set_is_not_me db identifier identities c = elim (own_identity identifier identities c) [
  | none ↦ identities
  | some i ↦ delete_identity db i identities
]

-- The loop over the contributors that claim the identifier.
pub unclaim : Database → String → List ℕ → List Identity → List Identity
unclaim db identifier [] identities = identities
unclaim db identifier (c ∷ cs) identities =
    unclaim db identifier cs (set_is_not_me db identifier identities c)

pub set_is_me : Database → String → Roster → ℕ → Roster
set_is_me db identifier r c = elim (own_identity identifier r.identities c) [
  | some i ↦ r
  | none ↦
      let existing = contributors_with_identifier db r.identities identifier in
      let left = unclaim db identifier existing r.identities in
      let mine : Identity = record {
        handle = db.fresh left;
        contributor = c;
        identifier = identifier;
      } in
      record { identities = if db.saves mine then left ++ (mine ∷ []) else left; me = some c }
]

-- `existingMe` over `allObjects`; it asserts that no second one is found.
pub existing_me_from : String → List Identity → Option ℕ → List ℕ → Outcome (Option ℕ)
existing_me_from identifier identities me [] = returned me
existing_me_from identifier identities me (c ∷ cs) =
    let rest_some = existing_me_from identifier identities (some c) cs in
    let rest_same = existing_me_from identifier identities me cs in
    if is_me identifier identities c
    then (if is_some me then raised Exception.assertion else rest_some)
    else rest_same

pub existing_me : String → List Identity → List ℕ → Outcome (Option ℕ)
existing_me identifier identities everyone = existing_me_from identifier identities none everyone

-- The enumeration of `willDeleteObject:`, over the identities of the object.
pub delete_all : Database → List Identity → List Identity → List Identity
delete_all db [] identities = identities
delete_all db (i ∷ is) identities = delete_all db is (delete_identity db i identities)

pub will_delete : Database → Roster → ℕ → Roster
will_delete db r c = record {
  identities = delete_all db (identities_for_contributor r.identities c) r.identities;
  me = elim r.me [ none ↦ none | some m ↦ if m == c then none else some m ];
}

-- `me`, where `made` is the pointer of the next new object, and `setMe:`
pub me_or_new : ℕ → Roster → ℕ × Roster
me_or_new made r = elim r.me [ some c ↦ (c, r) | none ↦ (made, record r { me = some made }) ]

pub set_me : Option ℕ → Roster → Roster
set_me contributor r = record r { me = contributor }
