-- ===== src/Contributors/Priority.antt =====
-- refreshPrioritiesForContributors:changedContributors:
use feather.Common.{
  get_elem?, count, Distinct, if◌then◌else◌, ◌==◌, nat_eq, string_eq, list_eq, ℕ, zero, suc, ◌+◌,
  ◌≤◌, ◌≡◌, refl, some, List, [], ◌∷◌, arith,
}
use feather.Contributors.{Priorities, assign, refresh_from, refresh_priorities}

refresh_from_other :
    (idx : ℕ) (h : Priorities) (cs : List ℕ) (c : ℕ)
    → count c cs ≡ 0
    → (refresh_from idx h cs).0 c ≡ h c
unfolding refresh_from
refresh_from_other idx h [] c absent = refl
refresh_from_other idx h (x ∷ cs) c absent =
    ground (arith, refresh_from_other (suc idx) (if h x == idx then h else assign h x idx) cs c)

refresh_from_at :
    (idx : ℕ) (h : Priorities) (cs : List ℕ) (i c : ℕ)
    → ((a : ℕ) → count a cs ≤ 1)
    → get_elem? cs i ≡ some c
    → (refresh_from idx h cs).0 c ≡ idx + i
unfolding refresh_from
refresh_from_at idx h [] i c once at = cc
refresh_from_at idx h (x ∷ cs) zero c once at =
    ground
      (arith, once x, refresh_from_other (suc idx) (if h x == idx then h else assign h x idx) cs x)
refresh_from_at idx h (x ∷ cs) (suc i) c once at =
    let rest : (refresh_from idx h (x ∷ cs)).0 c ≡ suc idx + i =
      refresh_from_at (suc idx) (if h x == idx then h else assign h x idx) cs i c
        (λ a. omega (arith, once a)) at in
    omega (arith, rest)

refresh_from_settled :
    (idx : ℕ) (h : Priorities) (cs : List ℕ)
    → ((i c : ℕ) → get_elem? cs i ≡ some c → h c ≡ idx + i)
    → refresh_from idx h cs ≡ (h, [])
unfolding refresh_from
refresh_from_settled idx h [] settled = refl
refresh_from_settled idx h (c ∷ cs) settled =
    let first : h c ≡ idx = omega (arith, settled 0 c refl) in
    let rest : refresh_from (suc idx) h cs ≡ (h, []) =
      refresh_from_settled (suc idx) h cs (λ i d at. omega (arith, settled (suc i) d at)) in
    ground (arith, rest)

pub refresh_priorities_at :
    (h : Priorities) (cs : List ℕ) (i c : ℕ)
    → Distinct cs
    → get_elem? cs i ≡ some c
    → (refresh_priorities h cs).0 c ≡ i
unfolding refresh_priorities
refresh_priorities_at h cs i c distinct at = omega (arith, refresh_from_at 0 h cs i c distinct at)

-- After a refresh the priority of a contributor of an array without repetitions is its index, and the
-- priority of an object outside the array has not changed.
pub refresh_priorities-index :
    (h : Priorities) (cs : List ℕ) (i c d : ℕ)
    → Distinct cs
    → get_elem? cs i ≡ some c
    → count d cs ≡ 0
    → ((refresh_priorities h cs).0 c ≡ i) × ((refresh_priorities h cs).0 d ≡ h d)
unfolding refresh_priorities
refresh_priorities-index h cs i c d distinct at outside =
    (refresh_priorities_at h cs i c distinct at, refresh_from_other 0 h cs d outside)

-- A second refresh of the same array, without repetitions, changes no object and returns 0.
pub refresh_priorities_again :
    (h : Priorities) (cs : List ℕ)
    → Distinct cs
    → refresh_priorities (refresh_priorities h cs).0 cs ≡ ((refresh_priorities h cs).0, [], 0)
unfolding refresh_priorities
refresh_priorities_again h cs distinct = rw (
    refresh_from_settled 0 (refresh_from 0 h cs).0 cs
      (λ i c at. refresh_from_at 0 h cs i c distinct at))
