-- ===== src/Projections/Projects.antt =====
-- The row of a project against the state that its log folds to.
use oxyris.Prelude.{
  ◌==◌, subst, ◌≡◌, refl, sym, ap, ◌∙◌, arith, true, false, Option, none, some, List, [], ◌∷◌, ◌++◌,
  filter, find, map_option, eq_text, Result, ok,
}
use oxyris.Prelude.F64.{F64}
use oxyris.Core.{AggregateId, DateTime, Environment, local, wsl, apply_all, replay}
use oxyris.Domain.Project.{
  ProjectState, ProjectData, ProjectEvent, project_created, project_renamed, project_logo_set,
  project_workspace_set, project_sort_order_set, project_deleted, with_data, apply, project,
}
use oxyris.Store.{StoredEvent}
use oxyris.Service.{apply_stored}
use oxyris.Projections.{ProjectionError}
use oxyris.Projections.ReadModel.{project_table}
use oxyris.Projections.Tables.{
  ProjectColumns, project_key, update_where, delete_where, insert_or_replace, environment_columns,
  environment_of, apply_project_event,
}
use oxyris.Projections.Queries.{ProjectRow, or_epoch, row_to_project, get_project}

module _ {Row : Type 0} (key : Row → AggregateId) where
  find-update_where :
      (id : AggregateId) (f : Row → Row) (rows : List Row)
      → ((r : Row) → key (f r) ≡ key r)
      → find (λ r. key r == id) (update_where key id f rows)
        ≡ map_option f (find (λ r. key r == id) rows)
  unfolding find update_where
  find-update_where id f [] h = refl
  find-update_where id f (r ∷ rows) h = ground (arith, find-update_where id f rows h, h r)

  find-delete_where :
      (id : AggregateId) (rows : List Row)
      → find (λ r. key r == id) (delete_where key id rows) ≡ none
  unfolding find delete_where filter
  find-delete_where id [] = refl
  find-delete_where id (r ∷ rows) = ground (arith, find-delete_where id rows)

  find-last :
      (id : AggregateId) (r : Row) (rows : List Row)
      → find (λ r. key r == id) rows ≡ none
      → key r ≡ id
      → find (λ r. key r == id) (rows ++ r ∷ []) ≡ some r
  unfolding find
  find-last id r [] h e = ground arith
  find-last id r (x ∷ rows) h e = ground (arith, find-last id r rows)

  find-insert_or_replace :
      (id : AggregateId) (r : Row) (rows : List Row)
      → key r ≡ id
      → find (λ r. key r == id) (insert_or_replace key r rows) ≡ some r
  unfolding insert_or_replace
  find-insert_or_replace id r rows e =
      find-last id r (delete_where key (key r) rows) (rw e (find-delete_where id rows)) e

-- The columns of a project with its last activity.
columns_of : (DateTime → F64) → DateTime → ProjectData → ProjectColumns
columns_of epoch last d = record {
  id = d.id;
  name = d.name;
  environment_kind = (environment_columns d.environment).0;
  environment_distro = (environment_columns d.environment).1;
  root_path = d.root_path;
  session_count = 0;
  created_at = d.created_at;
  last_activity_at = last;
  logo_path = d.logo_path;
  workspace = d.workspace;
  sort_order = some (or_epoch d.sort_order (epoch d.created_at));
}

-- An event that names a project names this one.
abbrev pub Names : AggregateId → ProjectEvent → Type 0
Names id (project_created id' name environment root_path workspace created_at) = id' ≡ id
Names id (project_renamed new_name) = Unit
Names id (project_logo_set logo_path) = Unit
Names id (project_workspace_set workspace) = Unit
Names id (project_sort_order_set sort_order) = Unit
Names id project_deleted = Unit

module _ (epoch : DateTime → F64) where
  -- The row of the project is the columns of its state.
  InStep : AggregateId → DateTime → List ProjectColumns → ProjectState → Type 0
  InStep id last rows state =
      find (λ r. project_key r == id) rows ≡ map_option (columns_of epoch last) state.inner

  updated :
      (id : AggregateId) (last now : DateTime) (rows : List ProjectColumns) (state : ProjectState)
      (f : ProjectColumns → ProjectColumns) (g : ProjectData → ProjectData)
      → InStep id last rows state
      → ((r : ProjectColumns) → (f r).id ≡ r.id)
      → ((d : ProjectData)
          → record (f (columns_of epoch last d)) { last_activity_at = now }
            ≡ columns_of epoch now (g d))
      → InStep id now
          (update_where project_key id (λ r. record (f r) { last_activity_at = now }) rows)
          (with_data state g)
  unfolding InStep with_data
  updated id last now rows state f g h keeps same =
      find-update_where project_key id (λ r. record (f r) { last_activity_at = now }) rows keeps
      ∙ ap (map_option (λ r. record (f r) { last_activity_at = now })) h
      ∙ through state.inner
    where
      through :
          (o : Option ProjectData)
          → map_option
              (λ (r : ProjectColumns). record (f r) { last_activity_at = now })
              (map_option (columns_of epoch last) o)
            ≡ map_option (columns_of epoch now) (map_option g o)
      through none = refl
      through (some d) = ap some (same d)

  InStep-apply_project_event :
      {Payload : Type 0} (stored : StoredEvent Payload) (event : ProjectEvent) (last : DateTime)
      (rows : List ProjectColumns) (state : ProjectState)
      → InStep stored.aggregate_id last rows state
      → Names stored.aggregate_id event
      → InStep stored.aggregate_id stored.timestamp
          (apply_project_event epoch rows stored event)
          (apply state event)
  unfolding apply_project_event apply InStep columns_of
  InStep-apply_project_event stored
        (project_created id name environment root_path workspace created_at) last rows state h
        named =
      find-insert_or_replace project_key stored.aggregate_id _ rows named
  InStep-apply_project_event stored (project_renamed new_name) last rows state h named =
      updated stored.aggregate_id last stored.timestamp rows state
        (λ r. record r { name = new_name }) (λ d. record d { name = new_name }) h (λ r. refl)
        (λ d. refl)
  InStep-apply_project_event stored (project_logo_set logo_path) last rows state h named =
      updated stored.aggregate_id last stored.timestamp rows state
        (λ r. record r { logo_path = logo_path }) (λ d. record d { logo_path = logo_path }) h
        (λ r. refl) (λ d. refl)
  InStep-apply_project_event stored (project_workspace_set workspace) last rows state h named =
      updated stored.aggregate_id last stored.timestamp rows state
        (λ r. record r { workspace = workspace }) (λ d. record d { workspace = workspace }) h
        (λ r. refl) (λ d. refl)
  InStep-apply_project_event stored (project_sort_order_set sort_order) last rows state h named =
      updated stored.aggregate_id last stored.timestamp rows state
        (λ r. record r { sort_order = some sort_order })
        (λ d. record d { sort_order = some sort_order }) h (λ r. refl) (λ d. refl)
  InStep-apply_project_event stored project_deleted last rows state h named =
      find-delete_where project_key stored.aggregate_id rows

  -- The row that a project reads as.
  unfoldable pub row_of : DateTime → ProjectData → ProjectRow
  row_of last d = record {
    id = d.id;
    name = d.name;
    environment = d.environment;
    root_path = d.root_path;
    logo_path = d.logo_path;
    workspace = d.workspace;
    created_at = d.created_at;
    last_activity_at = last;
    session_count = 0;
    sort_order = or_epoch d.sort_order (epoch d.created_at);
  }

  environment_of-columns :
      (env : Environment)
      → environment_of (environment_columns env).0 (environment_columns env).1 ≡ some env
  unfolding environment_of environment_columns eq_text
  environment_of-columns local = refl
  environment_of-columns (wsl distro) = refl

  row_to_project-columns :
      (last : DateTime) (d : ProjectData)
      → row_to_project epoch (columns_of epoch last d) ≡ some (row_of last d)
  unfolding row_to_project columns_of row_of
  row_to_project-columns last d = rw (row_to_project, environment_of-columns d.environment) refl

  get_project-InStep :
      (id : AggregateId) (last : DateTime) (rows : List ProjectColumns) (state : ProjectState)
      → InStep id last rows state
      → get_project epoch rows id ≡ some (map_option (row_of last) state.inner)
  unfolding get_project InStep
  get_project-InStep id last rows state h = rw (get_project, h) (through state.inner)
    where
      through :
          (o : Option ProjectData)
          → (elim (map_option (columns_of epoch last) o) [
            | none ↦ some none
            | some r ↦ elim (row_to_project epoch r) [ none ↦ none | some row ↦ some (some row) ]
          ])
            ≡ some (map_option (row_of last) o)
      through none = refl
      through (some d) = rw (row_to_project-columns last d) refl

  module _ {Payload : Type 0} (from_value : Payload → Option ProjectEvent) where
    -- The rows are of the aggregate and decode to the events, of which one that names a project
    -- names this one.
    unfoldable pub Decoded : AggregateId → List (StoredEvent Payload) → List ProjectEvent → Type 0
    Decoded id [] [] = Unit
    Decoded id [] (e ∷ es) = true ≡ false
    Decoded id (r ∷ rs) [] = true ≡ false
    Decoded id (r ∷ rs) (e ∷ es) =
        (from_value r.payload ≡ some e) × (r.aggregate_id ≡ id) × Names id e × Decoded id rs es

    abbrev pub follow :
        List ProjectColumns
        → List (StoredEvent Payload)
        → Result ProjectionError (Unit {0}) × List ProjectColumns
    follow = apply_stored (project_table from_value (apply_project_event epoch))

    follow-cons :
        (rows : List ProjectColumns) (r : StoredEvent Payload) (rs : List (StoredEvent Payload))
        (e : ProjectEvent)
        → from_value r.payload ≡ some e
        → follow rows (r ∷ rs) ≡ follow (apply_project_event epoch rows r e) rs
    unfolding apply_stored
    follow-cons rows r rs e h =
        let applied : project_table from_value (apply_project_event epoch) rows r
            ≡ (ok tt, apply_project_event epoch rows r e) =
          rw (project_table, h) refl in
        rw (apply_stored, h) (ap (λ p. follow p.1 rs) applied)

    follow-InStep :
        (id : AggregateId) (last : DateTime) (stored : List (StoredEvent Payload))
        (events : List ProjectEvent) (rows : List ProjectColumns) (state : ProjectState)
        → InStep id last rows state
        → Decoded id stored events
        → ((follow rows stored).0 ≡ ok tt)
          × ((last' : DateTime) × InStep id last'
                (follow rows stored).1
                (apply_all project state events))
    unfolding Decoded apply_all
    follow-InStep id last [] [] rows state h decoded = unfold apply_stored in (refl, (last, h))
    follow-InStep id last [] (e ∷ es) rows state h decoded = absurd (cc decoded)
    follow-InStep id last (r ∷ rs) [] rows state h decoded = absurd (cc decoded)
    follow-InStep id last (r ∷ rs) (e ∷ es) rows state h (found, mine, named, decoded) =
        let stepped : InStep id r.timestamp (apply_project_event epoch rows r e) (apply state e) =
          subst (λ i. InStep i r.timestamp (apply_project_event epoch rows r e) (apply state e))
            mine
            (InStep-apply_project_event r e last rows state
              (subst (λ i. InStep i last rows state) (sym mine) h)
              (subst (λ i. Names i e) (sym mine) named)) in
        let rest =
          follow-InStep id r.timestamp rs es (apply_project_event epoch rows r e) (apply state e)
            stepped decoded in
        rw (follow-cons rows r rs e found) rest

    -- A project's stored events, applied in order to tables that do not have it, succeed, and the
    -- project then reads as the state that the events fold to: its environment comes back from its
    -- two columns, its sort order is its creation time if none was set, and it counts no sessions.
    pub get_project-follow :
        (id : AggregateId) (stored : List (StoredEvent Payload)) (events : List ProjectEvent)
        (rows : List ProjectColumns)
        → find (λ r. r.id == id) rows ≡ none
        → Decoded id stored events
        → ((follow rows stored).0 ≡ ok tt)
          × ((last : DateTime) × (get_project epoch (follow rows stored).1 id
                ≡ some (map_option (row_of last) (replay project events).inner)))
    unfolding InStep replay
    get_project-follow id stored events rows absent decoded =
        let (done, (last, h)) =
          follow-InStep id 0 stored events rows project.default absent decoded in
        (done, (last, get_project-InStep id last (follow rows stored).1 (replay project events) h))
