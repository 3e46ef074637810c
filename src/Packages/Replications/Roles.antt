-- ===== src/Packages/Replications/Roles.antt =====
-- What each replication of a database is, as far as the steps of a run say it.
use feather.Common.{
  ℕ, ◌+◌, Bool, true, false, ◌&&◌, ◌≡◌, refl, Option, none, some, List, [], ◌∷◌, if◌then◌else◌,
  ◌==◌, nat_eq, contains, leb, arith, Bool-cases, inl, inr, sym, ap, ◌∙◌,
}
use feather.Foundation.{remove_object}
use feather.Packages.Replications.{
  Replications, Remote, Step, pushes, pulls, syncs, changes, pushed, pulled, synchronized, notify,
  replication_did_change,
}

-- A push that ends, one that is made to go on, and a pull.
pub data Role : Type 0 where
  one_off_push : Role
  continuous_push : Role
  pulling : Role

abbrev ends_by : Bool → Option Role → Option Role
ends_by true (some one_off_push) = none
ends_by _ role = role

-- The role of the replication `i` after a step, where `n` were created before, and how many are then.
abbrev pub role_after : Step → ℕ → ℕ → Option Role → Option Role
role_after pushes n i role = if i == n then some one_off_push else role
role_after pulls n i role = if i == n then some pulling else role
role_after syncs n i role =
    if i == n then some pulling else if i == n + 1 then some continuous_push else role
role_after (changes j stopped error) n i role = ends_by (stopped && j == i) role

abbrev pub created_after : Step → ℕ → ℕ
created_after pushes n = n + 1
created_after pulls n = n + 1
created_after syncs n = n + 1 + 1
created_after (changes j stopped error) n = n

abbrev pub role_of : List Step → ℕ → ℕ → Option Role → Option Role
role_of [] n i role = role
role_of (s ∷ ss) n i role = role_of ss (created_after s n) i (role_after s n i role)

abbrev is_one_off : Option Role → Bool
is_one_off (some one_off_push) = true
is_one_off _ = false

abbrev is_push : Option Role → Bool
is_push (some one_off_push) = true
is_push (some continuous_push) = true
is_push _ = false

abbrev is_pull : Option Role → Bool
is_pull (some pulling) = true
is_pull _ = false

-- The sets of the database hold the replication by its role.
abbrev pub Plays : Replications → ℕ → Option Role → Type 0
Plays r i role =
    (contains r.pushes i ≡ is_push role)
    × (contains r.pulls i ≡ is_pull role)
    × (contains r.observed i ≡ is_one_off role)

-- A replication that is still to be created plays no role.
abbrev pub IsNew : ℕ → ℕ → Option Role → Type 0
IsNew n i role = leb n i ≡ true → role ≡ none

contains-remove_object :
    (xs : List ℕ) (a b : ℕ)
    → contains (remove_object xs a) b ≡ (if a == b then false else contains xs b)
unfolding remove_object
contains-remove_object [] a b = ground arith
contains-remove_object (x ∷ xs) a b = ground (arith, contains-remove_object xs a b)

pub pushed-Plays :
    (remote : Remote) (r : Replications) (i : ℕ) (role : Option Role)
    → Plays r i role
    → IsNew r.created i role
    → Plays (pushed remote r) i (role_after pushes r.created i role)
unfolding pushed
pushed-Plays remote r i role (in_pushes, in_pulls, is_observed) new =
    elim (Bool-cases (i == r.created)) [
      | inl it ↦
          let free : role ≡ none = new (ground (arith, it)) in
          (ground (arith, it), ground (arith, it, in_pulls, free), ground (arith, it))
      | inr other ↦ (
        ground (arith, other, in_pushes),
        ground (arith, other, in_pulls),
        ground (arith, other, is_observed),
      )
    ]

pub pulled-Plays :
    (remote : Remote) (r : Replications) (i : ℕ) (role : Option Role)
    → Plays r i role
    → IsNew r.created i role
    → Plays (pulled remote r) i (role_after pulls r.created i role)
unfolding pulled
pulled-Plays remote r i role (in_pushes, in_pulls, is_observed) new =
    elim (Bool-cases (i == r.created)) [
      | inl it ↦
          let free : role ≡ none = new (ground (arith, it)) in
          (
            ground (arith, it, in_pushes, free),
            ground (arith, it),
            ground (arith, it, is_observed, free),
          )
      | inr other ↦ (
        ground (arith, other, in_pushes),
        ground (arith, other, in_pulls),
        ground (arith, other, is_observed),
      )
    ]

pub synchronized-Plays :
    (remote : Remote) (r : Replications) (i : ℕ) (role : Option Role)
    → Plays r i role
    → IsNew r.created i role
    → Plays (synchronized remote true r) i (role_after syncs r.created i role)
unfolding synchronized
synchronized-Plays remote r i role (in_pushes, in_pulls, is_observed) new =
    elim (Bool-cases (leb r.created i)) [
      | inl later ↦
          let free : role ≡ none = new later in
          (
            ground (arith, later, in_pushes, free),
            ground (arith, later, in_pulls, free),
            ground (arith, later, is_observed, free),
          )
      | inr earlier ↦ (
        ground (arith, earlier, in_pushes),
        ground (arith, earlier, in_pulls),
        ground (arith, earlier, is_observed),
      )
    ]

one_off_role : (role : Option Role) → is_one_off role ≡ true → role ≡ some one_off_push
one_off_role (some one_off_push) h = refl
one_off_role none h = cc
one_off_role (some continuous_push) h = cc
one_off_role (some pulling) h = cc

lasting_role : (role : Option Role) → is_one_off role ≡ false → ends_by true role ≡ role
lasting_role (some one_off_push) h = cc
lasting_role none h = refl
lasting_role (some continuous_push) h = refl
lasting_role (some pulling) h = refl

-- A replication that stops leaves the sets, if it is observed.
stopped-Plays :
    (r : Replications) (j i : ℕ) (error : Option ℕ) (role : Option Role)
    → Plays r i role
    → contains r.observed j ≡ true
    → Plays (replication_did_change j true error r) i (ends_by (j == i) role)
unfolding replication_did_change
stopped-Plays r j i error role (in_pushes, in_pulls, is_observed) there =
    let left_pushes = contains-remove_object r.pushes j i in
    let left_pulls = contains-remove_object r.pulls j i in
    let left_observed = contains-remove_object r.observed j i in
    elim (Bool-cases (j == i)) [
      | inl same ↦
          let it : j ≡ i = ground (arith, same) in
          let one_off : is_one_off role ≡ true =
            sym is_observed ∙ (ap (contains r.observed) (sym it) ∙ there) in
          let ending : role ≡ some one_off_push = one_off_role role one_off in
          (
            ground (arith, same, left_pushes, ending),
            ground (arith, same, left_pulls, ending),
            ground (arith, same, left_observed, ending),
          )
      | inr other ↦ (
        ground (arith, other, left_pushes, in_pushes),
        ground (arith, other, left_pulls, in_pulls),
        ground (arith, other, left_observed, is_observed),
      )
    ]

unobserved_role :
    (r : Replications) (j i : ℕ) (role : Option Role)
    → contains r.observed i ≡ is_one_off role
    → contains r.observed j ≡ false
    → ends_by (j == i) role ≡ role
unobserved_role r j i role is_observed absent = elim (Bool-cases (j == i)) [
  | inl same ↦
      let it : j ≡ i = ground (arith, same) in
      let lasting = sym is_observed ∙ (ap (contains r.observed) (sym it) ∙ absent) in
      ap (λ b. ends_by b role) same ∙ lasting_role role lasting
  | inr other ↦ ap (λ b. ends_by b role) other
]

pub notify-Plays :
    (r : Replications) (j i : ℕ) (stopped : Bool) (error : Option ℕ) (role : Option Role)
    → Plays r i role
    → Plays (notify j stopped error r) i (ends_by (stopped && j == i) role)
unfolding notify replication_did_change
notify-Plays r j i false error role plays = ground (arith, plays)
notify-Plays r j i true error role (in_pushes, in_pulls, is_observed) =
    elim (Bool-cases (contains r.observed j)) [
      | inl there ↦
          rw (there) (stopped-Plays r j i error role (in_pushes, in_pulls, is_observed) there)
      | inr absent ↦
          rw (absent, unobserved_role r j i role is_observed absent)
            (in_pushes, in_pulls, is_observed)
    ]

still_none : (stops : Bool) → ends_by stops none ≡ none
still_none true = refl
still_none false = refl

pub IsNew-after :
    (s : Step) (n i : ℕ) (role : Option Role)
    → IsNew n i role
    → IsNew (created_after s n) i (role_after s n i role)
IsNew-after pushes n i role new later = ground (arith, later, new (ground (arith, later)))
IsNew-after pulls n i role new later = ground (arith, later, new (ground (arith, later)))
IsNew-after syncs n i role new later = ground (arith, later, new (ground (arith, later)))
IsNew-after (changes j stopped error) n i role new later =
    ap (ends_by (stopped && j == i)) (new later) ∙ still_none (stopped && j == i)
