-- ===== src/Contributors/Claim/Tests.antt =====
-- "Me", tried out on a package where contributor 1 is me and contributor 2 becomes it.
use feather.Common.{
  length, nat_eq, string_eq, list_eq, ℕ, ◌+◌, ◌≡◌, refl, true, false, some, [], ◌∷◌, arith,
}
use feather.Contributors.Claim.{
  Roster, Database, identities_for_contributor, is_me, set_is_me, existing_me,
}
use feather.Contributors.Claim.Me.{Works, set_is_me-only, existing_me-set_is_me}
use feather.Foundation.{returned}

abbrev willing : Database
willing = record {
  loads = λ c. true;
  deletes = λ i. true;
  saves = λ i. true;
  fresh = λ identities. 100 + length identities;
}

abbrev first_me : Roster
first_me = record {
  identities = record { handle = 10; contributor = 1; identifier = "u" } ∷ [];
  me = some 1;
}

willing-Works : Works willing
willing-Works = record { loads = λ c. refl; deletes = λ i. refl; saves = λ i. refl }

first_me_unique :
    (d e : ℕ)
    → is_me "u" first_me.identities d ≡ true
    → is_me "u" first_me.identities e ≡ true
    → d ≡ e
unfolding is_me identities_for_contributor
first_me_unique d e h k = ground arith

set_is_me-only_example : is_me "u" (set_is_me willing "u" first_me 2).identities 1 ≡ false
set_is_me-only_example =
    set_is_me-only willing willing-Works "u" first_me 2 (λ a. ground arith) first_me_unique 1

existing_me-set_is_me_example :
    existing_me "u" (set_is_me willing "u" first_me 2).identities (1 ∷ 2 ∷ []) ≡ returned (some 2)
existing_me-set_is_me_example =
    existing_me-set_is_me willing willing-Works "u" first_me 2 (1 ∷ 2 ∷ []) (λ a. ground arith)
      first_me_unique refl
