-- ===== src/Contributors/Claim/Me.antt =====
-- Who is me after `setIsMe:`, and what `existingMe` finds then.
use Prim.Native.String.{String}
use feather.Common.{
  filter, count, Distinct, ltb, nat_beq_iff, if◌then◌else◌, ◌==◌, nat_eq, string_eq, list_eq,
  Option-cases, ℕ, ◌+◌, ◌-◌, ◌≤◌, ◌<◌, ◌≡◌, refl, ◌↔◌, inl, inr, Bool, true, not, Option, none,
  some, List, [], ◌∷◌, ◌++◌, map, arith,
}
use feather.Contributors.Claim.{
  Identity, Roster, Database, claims, identities_for_contributor, identities_with_identifier,
  contributors_with_identifier, is_me, own_identity, delete_identity, set_is_not_me, unclaim,
  set_is_me, existing_me_from, existing_me,
}
use feather.Foundation.{returned}
use text.Mathlib.TextEquality.{eq_iff}

-- How many identities claim the identifier for a contributor.
abbrev claims_of : String → List Identity → ℕ → ℕ
claims_of identifier identities c =
    count c (map (λ i. i.contributor) (identities_with_identifier identities identifier))

abbrev handles : List Identity → List ℕ
handles identities = map (λ i. i.handle) identities

-- Couchbase Lite loads, deletes and saves whatever it is asked to.
pub record Works (db : Database) : Type 0 where
  pub loads : (c : ℕ) → db.loads c ≡ true
  pub deletes : (i : Identity) → db.deletes i ≡ true
  pub saves : (i : Identity) → db.saves i ≡ true

is_me-claims_of :
    (identifier : String) (st : List Identity) (c : ℕ)
    → is_me identifier st c ≡ ltb 0 (claims_of identifier st c)
unfolding is_me identities_for_contributor identities_with_identifier
is_me-claims_of identifier [] c = refl
is_me-claims_of identifier (i ∷ st) c =
    ground (arith, is_me-claims_of identifier st c, nat_beq_iff i.contributor c)

own_identity-cons :
    (identifier : String) (i : Identity) (st : List Identity) (c : ℕ)
    → own_identity identifier (i ∷ st) c
      ≡ (if claims identifier c i then some i else own_identity identifier st c)
unfolding own_identity identities_for_contributor
own_identity-cons identifier i st c = ground arith

-- The handle of an identity that is found is among the handles.
own_identity-handle :
    (identifier : String) (st : List Identity) (c : ℕ) (i : Identity)
    → own_identity identifier st c ≡ some i
    → 0 < count i.handle (handles st)
unfolding own_identity identities_for_contributor
own_identity-handle identifier [] c i h = cc
own_identity-handle identifier (j ∷ st) c i h =
    ground (arith, own_identity-cons identifier j st c, own_identity-handle identifier st c i)

filter_absent :
    (k : ℕ) (st : List Identity)
    → count k (handles st) ≡ 0
    → filter (λ j. not (j.handle == k)) st ≡ st
filter_absent k [] h = refl
filter_absent k (j ∷ st) h = ground (arith, filter_absent k st)

-- A deletion takes away one claim of the contributor, and no other claim.
claims_of-delete :
    (identifier : String) (st : List Identity) (c b : ℕ) (i : Identity)
    → Distinct (handles st)
    → own_identity identifier st c ≡ some i
    → claims_of identifier (filter (λ j. not (j.handle == i.handle)) st) b
        + (if c == b then 1 else 0)
      ≡ claims_of identifier st b
unfolding own_identity identities_for_contributor identities_with_identifier
claims_of-delete identifier [] c b i distinct h = cc
claims_of-delete identifier (j ∷ st) c b i distinct h = ground (
  arith,
  own_identity-cons identifier j st c,
  distinct j.handle,
  filter_absent i.handle st,
  own_identity-handle identifier st c i,
  claims_of-delete identifier st c b i (λ a. omega (arith, distinct a)),
)

handles-filter :
    (k a : ℕ) (st : List Identity)
    → count a (handles (filter (λ j. not (j.handle == k)) st)) ≤ count a (handles st)
handles-filter k a [] = omega arith
handles-filter k a (j ∷ st) = ground (arith, handles-filter k a st)

own_identity-none :
    (identifier : String) (st : List Identity) (c : ℕ)
    → (own_identity identifier st c ≡ none) ↔ (claims_of identifier st c ≡ 0)
unfolding own_identity identities_for_contributor identities_with_identifier
own_identity-none identifier [] c = ground arith
own_identity-none identifier (j ∷ st) c = ground (arith, own_identity-none identifier st c)

filter-true : (p : ℕ → Bool) (cs : List ℕ) → ((c : ℕ) → p c ≡ true) → filter p cs ≡ cs
filter-true p [] h = refl
filter-true p (c ∷ cs) h = ground (arith, h c, filter-true p cs h)

module _ (db : Database) (works : Works db) (identifier : String) where
  -- One step of the loop: the handles stay distinct, and one claim of `c` is gone if there was one.
  set_is_not_me_lem :
      (st : List Identity) (c : ℕ)
      → Distinct (handles st)
      → Distinct (handles (set_is_not_me db identifier st c))
        × ((b : ℕ)
            → claims_of identifier (set_is_not_me db identifier st c) b
              ≡ claims_of identifier st b - (if c == b then 1 else 0))
  unfolding set_is_not_me delete_identity
  set_is_not_me_lem st c distinct = elim (Option-cases (own_identity identifier st c)) [
    | inl free ↦
        rw (free, set_is_not_me)
          (
            distinct,
            λ b. ground (arith, (own_identity-none identifier st c).0 free, nat_beq_iff c b),
          )
    | inr (i, found) ↦
        rw (found, set_is_not_me, works.deletes i)
          (
            λ a. omega (arith, handles-filter i.handle a st, distinct a),
            λ b. ground (arith, claims_of-delete identifier st c b i distinct found),
          )
  ]

  unclaim_lem :
      (cs : List ℕ) (st : List Identity)
      → Distinct (handles st)
      → (b : ℕ)
      → claims_of identifier (unclaim db identifier cs st) b
        ≡ claims_of identifier st b - count b cs
  unfolding unclaim
  unclaim_lem [] st distinct b = omega arith
  unclaim_lem (c ∷ cs) st distinct b =
      let (distinct', fewer) = set_is_not_me_lem st c distinct in
      omega (arith, unclaim_lem cs (set_is_not_me db identifier st c) distinct' b, fewer b)

  claims_of-append :
      (st : List Identity) (i : Identity) (b : ℕ)
      → i.identifier ≡ identifier
      → claims_of identifier (st ++ i ∷ []) b
        ≡ claims_of identifier st b + (if i.contributor == b then 1 else 0)
  unfolding identities_with_identifier
  claims_of-append [] i b h = ground (arith, eq_iff i.identifier identifier)
  claims_of-append (j ∷ st) i b h = ground (arith, claims_of-append st i b h)

  -- A contributor that had no identity with the identifier is the only one with it.
  set_is_me_new :
      (r : Roster) (c b : ℕ)
      → Distinct (handles r.identities)
      → own_identity identifier r.identities c ≡ none
      → is_me identifier (set_is_me db identifier r c).identities b ≡ (c == b)
  unfolding set_is_me contributors_with_identifier
  set_is_me_new r c b distinct free =
      let existing =
        map (λ (i : Identity). i.contributor)
          (identities_with_identifier r.identities identifier) in
      let left = unclaim db identifier existing r.identities in
      let mine : Identity = record {
        handle = db.fresh left;
        contributor = c;
        identifier = identifier;
      } in
      rw (free, set_is_me, filter-true db.loads existing works.loads, works.saves mine)
        (ground (
          arith,
          is_me-claims_of identifier (left ++ mine ∷ []) b,
          claims_of-append left mine b refl,
          unclaim_lem existing r.identities distinct b,
        ))

  -- `setIsMe:YES` where the database does as asked, no two identities share a pointer and at most one
  -- contributor is me: afterwards the contributor is me, and nobody else is.
  pub set_is_me-only :
      (r : Roster) (c : ℕ)
      → Distinct (handles r.identities)
      → ((d e : ℕ)
          → is_me identifier r.identities d ≡ true
          → is_me identifier r.identities e ≡ true
          → d ≡ e)
      → (b : ℕ) → is_me identifier (set_is_me db identifier r c).identities b ≡ (c == b)
  unfolding set_is_me
  set_is_me-only r c distinct unique b =
      elim (Option-cases (own_identity identifier r.identities c)) [
        | inl free ↦ set_is_me_new r c b distinct free
        | inr (i, found) ↦
            let mine : is_me identifier r.identities c ≡ true = ground (
              arith,
              is_me-claims_of identifier r.identities c,
              (own_identity-none identifier r.identities c).1,
            ) in
            rw (found, set_is_me) (ground (arith, unique c b mine, mine, nat_beq_iff c b))
      ]

existing_me_from_other :
    (identifier : String) (st : List Identity) (c : ℕ) (me : Option ℕ) (everyone : List ℕ)
    → ((b : ℕ) → is_me identifier st b ≡ (c == b))
    → count c everyone ≡ 0
    → existing_me_from identifier st me everyone ≡ returned me
unfolding existing_me_from
existing_me_from_other identifier st c me [] only absent = refl
existing_me_from_other identifier st c me (d ∷ ds) only absent =
    ground (arith, only d, existing_me_from_other identifier st c me ds only)

existing_me_from_only :
    (identifier : String) (st : List Identity) (c : ℕ) (everyone : List ℕ)
    → ((b : ℕ) → is_me identifier st b ≡ (c == b))
    → count c everyone ≡ 1
    → existing_me_from identifier st none everyone ≡ returned (some c)
unfolding existing_me_from
existing_me_from_only identifier st c [] only once = absurd (omega arith)
existing_me_from_only identifier st c (d ∷ ds) only once = ground (
  arith,
  only d,
  existing_me_from_other identifier st c (some d) ds only,
  existing_me_from_only identifier st c ds only,
)

-- After `setIsMe:YES`, under the same conditions, `existingMe` over an array that holds the
-- contributor once finds it, and no assertion fails.
pub existing_me-set_is_me :
    (db : Database) (works : Works db) (identifier : String) (r : Roster) (c : ℕ)
    (everyone : List ℕ)
    → Distinct (handles r.identities)
    → ((d e : ℕ)
        → is_me identifier r.identities d ≡ true
        → is_me identifier r.identities e ≡ true
        → d ≡ e)
    → count c everyone ≡ 1
    → existing_me identifier (set_is_me db identifier r c).identities everyone ≡ returned (some c)
unfolding existing_me
existing_me-set_is_me db works identifier r c everyone distinct unique once =
    existing_me_from_only identifier (set_is_me db identifier r c).identities c everyone
      (set_is_me-only db works identifier r c distinct unique) once
