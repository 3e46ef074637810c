-- ===== src/Packages/Replications.antt =====
-- The replications of a database: pushing, pulling, continuous synchronisation and the notifications of
-- Couchbase Lite about them, of Feather/Sources/Database Packages/MPDatabase.m. A replication is known by the
-- number of those created before it.
pub mod Roles
pub mod Runs
use feather.Common.{
  ℕ, suc, ◌+◌, Bool, true, false, ◌&&◌, Option, none, some, List, [], ◌∷◌, ◌++◌, if◌then◌else◌,
  ◌==◌, nat_eq, contains, is_some,
}
use feather.Foundation.{Outcome, returned, raised, Exception, ◌>>=◌, ◌>>◌, remove_object}
use feather.Json.{codes}

-- `currentPulls` and `currentPushes`, the replications whose notifications the database observes, those that
-- were started, the filter that each created one was given, and the errors that were posted.
pub record Replications : Type 0 where
  pub created : ℕ
  pub pulls : List ℕ
  pub pushes : List ℕ
  pub observed : List ℕ
  pub started : List ℕ
  pub filters : List (ℕ × Option (List ℕ))
  pub posted : List ℕ

-- The database's name and the names of its filters, which filters Couchbase Lite knows, and what the
-- package says of applying them.
pub record Remote : Type 0 where
  pub name : List ℕ
  pub push_filter_name : Option (List ℕ)
  pub pull_filter_name : Option (List ℕ)
  pub knows_filter : List ℕ → Bool
  pub filters_pushes : Bool
  pub filters_pulls : Bool
  -- `ensureRemoteDatabaseCreated:`, which throws unless a subclass implements it.
  pub ensure_created : Outcome Bool

qualified : List ℕ → List ℕ → List ℕ
qualified name filter_name = name ++ (codes "/" ++ filter_name)

unfoldable pub qualified_push_filter_name : Remote → Option (List ℕ)
unfolding qualified
qualified_push_filter_name remote = elim remote.push_filter_name [
  | none ↦ none
  | some f ↦ some (qualified remote.name f)
]

unfoldable pub qualified_pull_filter_name : Remote → Option (List ℕ)
qualified_pull_filter_name remote = remote.pull_filter_name

-- `validateFilters`: the filter for pushes, where it has a name, must be there.
filter_is_there : Remote → Option (List ℕ) → Outcome (Unit {0})
unfolding qualified
filter_is_there remote none = returned tt
filter_is_there remote (some f) =
    if remote.knows_filter (qualified remote.name f)
    then returned tt
    else raised Exception.missing_filter

unfoldable pub validate_filters : Remote → Outcome (Unit {0})
unfolding filter_is_there
validate_filters remote = filter_is_there remote remote.push_filter_name

module _ (remote : Remote) where
  -- `pushToDatabaseAtURL:replication:error:`
  unfoldable pub pushed : Replications → Replications
  unfolding qualified_push_filter_name
  pushed r =
      let filter = if remote.filters_pushes then qualified_push_filter_name remote else none in
      record r {
        created = r.created + 1;
        pushes = r.created ∷ r.pushes;
        observed = r.created ∷ r.observed;
        started = r.created ∷ r.started;
        filters = (r.created, filter) ∷ r.filters;
      }

  unfoldable pub push : Replications → Outcome Replications
  unfolding validate_filters pushed
  push r = do validate_filters remote; returned (pushed r)

  -- `pullFromDatabaseAtURL:replication:error:`
  unfoldable pub pulled : Replications → Replications
  unfolding qualified_pull_filter_name
  pulled r =
      let filter = if remote.filters_pulls then qualified_pull_filter_name remote else none in
      record r {
        created = r.created + 1;
        pulls = r.created ∷ r.pulls;
        started = r.created ∷ r.started;
        filters = (r.created, filter) ∷ r.filters;
      }

  unfoldable pub pull : Replications → Outcome Replications
  unfolding validate_filters pulled
  pull r = do validate_filters remote; returned (pulled r)

  -- `syncWithRemote:`, which makes a pull and then a push.
  unfoldable pub synchronized : Bool → Replications → Replications
  synchronized false r = r
  synchronized true r =
      let n = r.created + 1 in
      record r {
        created = n + 1;
        pulls = r.created ∷ r.pulls;
        pushes = n ∷ r.pushes;
        filters = (n, none) ∷ (r.created, none) ∷ r.filters;
      }

  unfoldable pub sync_with_remote : Replications → Outcome (Bool × Replications)
  unfolding validate_filters synchronized
  sync_with_remote r = do
    validate_filters remote
    ready ← remote.ensure_created
    returned (ready, synchronized ready r)

-- `replicationDidChange:` for a replication, with whether it has stopped and its last error.
unfoldable pub replication_did_change : ℕ → Bool → Option ℕ → Replications → Replications
unfolding remove_object
replication_did_change i stopped error r =
    if stopped
    then record r {
      pushes = remove_object r.pushes i;
      pulls = remove_object r.pulls i;
      observed = remove_object r.observed i;
      posted = elim error [ none ↦ r.posted | some e ↦ e ∷ r.posted ];
    }
    else r

-- A notification of Couchbase Lite reaches the database where it observes the replication.
unfoldable pub notify : ℕ → Bool → Option ℕ → Replications → Replications
unfolding replication_did_change
notify i stopped error r =
    if contains r.observed i then replication_did_change i stopped error r else r

-- A call of the database, or a notification of Couchbase Lite.
pub data Step : Type 0 where
  pushes : Step
  pulls : Step
  syncs : Step
  changes : ℕ → Bool → Option ℕ → Step

unfoldable pub step : Remote → Step → Replications → Outcome Replications
unfolding push pull sync_with_remote notify
step remote pushes r = push remote r
step remote pulls r = pull remote r
step remote syncs r = do (ready, r') ← sync_with_remote remote r; returned r'
step remote (changes i stopped error) r = returned (notify i stopped error r)

unfoldable pub run_steps : Remote → List Step → Replications → Outcome Replications
unfolding step
run_steps remote [] r = returned r
run_steps remote (s ∷ ss) r = step remote s r >>= run_steps remote ss
