-- ===== src/Packages/Replications/Runs.antt =====
-- A run of a database's replications: the roles that its steps give are those that its sets show.
use feather.Common.{
  ℕ, true, false, ◌≡◌, refl, Option, none, List, [], ◌∷◌, leb, arith, sym, ap, ◌∙◌,
}
use feather.Foundation.{returned, ◌>>=◌}
use feather.Packages.Replications.{
  Replications, Remote, Step, pushes, pulls, syncs, changes, pushed, pulled, synchronized, push,
  pull, sync_with_remote, notify, replication_did_change, step, run_steps, validate_filters,
}
use feather.Packages.Replications.Roles.{
  Role, role_of, role_after, created_after, Plays, IsNew, pushed-Plays, pulled-Plays,
  synchronized-Plays, notify-Plays, IsNew-after,
}

at_count :
    (r : Replications) (ss : List Step) (i n m : ℕ) (role : Option Role)
    → n ≡ m
    → Plays r i (role_of ss n i role)
    → Plays r i (role_of ss m i role)
at_count r ss i n m role h plays = rw (sym h) plays

after : Remote → Step → Replications → Replications
unfolding pushed pulled synchronized notify
after remote pushes r = pushed remote r
after remote pulls r = pulled remote r
after remote syncs r = synchronized remote true r
after remote (changes j stopped error) r = notify j stopped error r

step-after :
    (remote : Remote) (s : Step) (r : Replications)
    → validate_filters remote ≡ returned tt
    → remote.ensure_created ≡ returned true
    → step remote s r ≡ returned (after remote s r)
unfolding step after push pull sync_with_remote
step-after remote pushes r valid ready = rw (valid) refl
step-after remote pulls r valid ready = rw (valid) refl
step-after remote syncs r valid ready = rw (valid, ready) refl
step-after remote (changes j stopped error) r valid ready = refl

after-Plays :
    (remote : Remote) (s : Step) (r : Replications) (i : ℕ) (role : Option Role)
    → Plays r i role
    → IsNew r.created i role
    → Plays (after remote s r) i (role_after s r.created i role)
unfolding after
after-Plays remote pushes r i role plays new = pushed-Plays remote r i role plays new
after-Plays remote pulls r i role plays new = pulled-Plays remote r i role plays new
after-Plays remote syncs r i role plays new = synchronized-Plays remote r i role plays new
after-Plays remote (changes j stopped error) r i role plays new =
    notify-Plays r j i stopped error role plays

created-after :
    (remote : Remote) (s : Step) (r : Replications)
    → (after remote s r).created ≡ created_after s r.created
unfolding after pushed pulled synchronized notify replication_did_change
created-after remote pushes r = refl
created-after remote pulls r = refl
created-after remote syncs r = refl
created-after remote (changes j true error) r = ground arith
created-after remote (changes j false error) r = ground arith

run_from :
    (remote : Remote) (ss : List Step) (r : Replications)
    → validate_filters remote ≡ returned tt
    → remote.ensure_created ≡ returned true
    → (r' : Replications) × (run_steps remote ss r ≡ returned r')
      × ((i : ℕ) (role : Option Role)
          → Plays r i role
          → IsNew r.created i role
          → Plays r' i (role_of ss r.created i role))
unfolding run_steps
run_from remote [] r valid ready = (r, refl, λ i role plays new. plays)
run_from remote (s ∷ ss) r valid ready =
    let (r', runs, plays_on) = run_from remote ss (after remote s r) valid ready in
    (
      r',
      ap (λ m. m >>= run_steps remote ss) (step-after remote s r valid ready) ∙ runs,
      λ i role plays new.
          let n = created-after remote s r in
          let later = after-Plays remote s r i role plays new in
          let still_new = IsNew-after s r.created i role new in
          let next = role_after s r.created i role in
          at_count r' ss i (after remote s r).created (created_after s r.created) next n
            (plays_on i next later (λ late. still_new (ap (λ n. leb n i) (sym n) ∙ late))),
    )

abbrev pub no_replications : Replications
no_replications = record {
  created = 0;
  pulls = [];
  pushes = [];
  observed = [];
  started = [];
  filters = [];
  posted = [];
}

-- Where the database's filter for pushes is there and the remote database is ensured to be created, then
-- after any calls and notifications a replication is among the current pushes exactly if it is a push of
-- its own that was not notified to have stopped or one of a continuous synchronisation, and it is among
-- the current pulls exactly if it is a pull: no pull is ever taken out, for none is observed.
pub run_steps-roles :
    (remote : Remote) (ss : List Step) (i : ℕ)
    → validate_filters remote ≡ returned tt
    → remote.ensure_created ≡ returned true
    → (r : Replications) × (run_steps remote ss no_replications ≡ returned r)
      × Plays r i (role_of ss 0 i none)
run_steps-roles remote ss i valid ready =
    let (r, runs, plays_on) = run_from remote ss no_replications valid ready in
    (r, runs, plays_on i none (refl, refl, refl) (λ later. refl))
