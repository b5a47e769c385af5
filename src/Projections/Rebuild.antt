-- ===== src/Projections/Rebuild.antt =====
-- The read model that follows the log event by event is the one that `rebuild_from` makes.
use oxyris.Prelude.{
  ◌≡◌, refl, sym, ap, ◌∙◌, arith, inl, inr, Text, codes, eq_text, eq_text→eq, Bool, true, false,
  Bool-cases, List, [], ◌∷◌, filter, ok, result_cases,
}
use oxyris.Store.{StoredEvent, EventStore, seq_of}
use oxyris.Store.Streams.{Increasing, load_all-eq-filter}
use oxyris.Service.{Projector, apply_stored}
use oxyris.Projections.ReadModel.{
  Decoders, Projections, empty, Kind, project, worktree, session, action, kind_of, apply_projects,
  apply_worktrees, apply_sessions, apply_actions, apply_as, apply, rebuild_from,
}

-- One table of a read model: the rows of the log that concern it change it by what is in it alone.
module _ {Payload Failure T C : Type 0} (step : Projector T Payload Failure)
    (mine : StoredEvent Payload → Bool) (get : T → C) (put : C → T → T)
    (own : Projector C Payload Failure)
    (step-own : (t : T) (r : StoredEvent Payload)
      → mine r ≡ true
      → step t r ≡ ((own (get t) r).0, put (own (get t) r).1 t))
    (step-other : (t : T) (r : StoredEvent Payload) → mine r ≡ false → get (step t r).1 ≡ get t)
    (get-put : (c : C) (t : T) → get (put c t) ≡ c)
    (put-put : (c c' : C) (t : T) → put c (put c' t) ≡ put c t)
    (put-get : (t : T) → put (get t) t ≡ t) where
  apply_stored-cons :
      (t t' : T) (r : StoredEvent Payload) (rs : List (StoredEvent Payload))
      → apply_stored step t (r ∷ rs) ≡ (ok tt, t')
      → ((step t r).0 ≡ ok tt) × (apply_stored step (step t r).1 rs ≡ (ok tt, t'))
  unfolding apply_stored
  apply_stored-cons t t' r rs = elim (result_cases (step t r).0) [
    | inl (u, e) ↦ rw (apply_stored, e) (λ h. (refl, h))
    | inr (x, e) ↦ rw (apply_stored, e) (λ h. absurd (cc h))
  ]

  apply_stored-ok :
      (t : T) (r : StoredEvent Payload) (rs : List (StoredEvent Payload))
      → (step t r).0 ≡ ok tt
      → apply_stored step t (r ∷ rs) ≡ apply_stored step (step t r).1 rs
  unfolding apply_stored
  apply_stored-ok t r rs e = rw (apply_stored, e) refl

  apply_stored-table :
      (s t t' : T) (rs : List (StoredEvent Payload))
      → get s ≡ get t
      → apply_stored step t rs ≡ (ok tt, t')
      → apply_stored step s (filter mine rs) ≡ (ok tt, put (get t') s)
  unfolding filter
  apply_stored-table s t t' [] same h =
      unfold apply_stored in
      (ap (λ u. (ok tt, u)) (sym (put-get s))
        ∙ ap (λ c. (ok tt, put c s)) (same ∙ ap (λ p. get p.1) h))
  apply_stored-table s t t' (r ∷ rs) same h =
      let (done, rest) = apply_stored-cons t t' r rs h in
      elim (Bool-cases (mine r)) [
        | inr e ↦
            rw e (apply_stored-table s (step t r).1 t' rs (same ∙ sym (step-other t r e)) rest)
        | inl e ↦
            let at_t = step-own t r e in
            let at_s = step-own s r e in
            let agree = ap (λ c. own c r) same in
            let done_s : (step s r).0 ≡ ok tt =
              ap (λ p. p.0) at_s ∙ ap (λ p. p.0) agree ∙ sym (ap (λ p. p.0) at_t) ∙ done in
            let moved : get (step s r).1 ≡ get (step t r).1 =
              ap (λ p. get p.1) at_s
              ∙ get-put (own (get s) r).1 s
              ∙ ap (λ p. p.1) agree
              ∙ sym (get-put (own (get t) r).1 t)
              ∙ sym (ap (λ p. get p.1) at_t) in
            rw e (
              apply_stored-ok s r (filter mine rs) done_s
              ∙ apply_stored-table (step s r).1 (step t r).1 t' rs moved rest
              ∙ ap (λ p. (ok tt, put (get t') p.1)) at_s
              ∙ ap (λ u. (ok tt, u)) (put-put (get t') (own (get s) r).1 s))
      ]

of_kind : {Payload : Type 0} → Text → StoredEvent Payload → Bool
of_kind kind r = eq_text r.aggregate kind

module _ {Payload Json : Type 0} (d : Decoders Payload Json) where
  apply-of_kind :
      (kind : Text) (k : Kind) (t : Projections Json) (r : StoredEvent Payload)
      → kind_of kind ≡ k
      → of_kind kind r ≡ true
      → apply d t r ≡ apply_as d k t r
  unfolding apply of_kind
  apply-of_kind kind k t r h e =
      ap (λ c. apply_as d c t r) (ap kind_of (eq_text→eq r.aggregate kind e) ∙ h)

  projects-other :
      (t : Projections Json) (r : StoredEvent Payload)
      → of_kind (codes "project") r ≡ false
      → (apply d t r).1.projects ≡ t.projects
  unfolding apply of_kind kind_of apply_as
  projects-other t r e = ground arith

  worktrees-other :
      (t : Projections Json) (r : StoredEvent Payload)
      → of_kind (codes "worktree") r ≡ false
      → (apply d t r).1.worktrees ≡ t.worktrees
  unfolding apply of_kind kind_of apply_as
  worktrees-other t r e = ground arith

  sessions-other :
      (t : Projections Json) (r : StoredEvent Payload)
      → of_kind (codes "session") r ≡ false
      → (apply d t r).1.sessions ≡ t.sessions
  unfolding apply of_kind kind_of apply_as
  sessions-other t r e = ground arith

  actions-other :
      (t : Projections Json) (r : StoredEvent Payload)
      → of_kind (codes "action") r ≡ false
      → (apply d t r).1.actions ≡ t.actions
  unfolding apply of_kind kind_of apply_as
  actions-other t r e = ground arith

  projects-rows :
      (s t t' : Projections Json) (rs : List (StoredEvent Payload))
      → s.projects ≡ t.projects
      → apply_stored (apply d) t rs ≡ (ok tt, t')
      → apply_stored (apply d) s (filter (of_kind (codes "project")) rs)
        ≡ (ok tt, record s { projects = t'.projects })
  unfolding apply_as kind_of
  projects-rows =
      apply_stored-table (apply d) (of_kind (codes "project")) (λ t. t.projects)
        (λ c t. record t { projects = c }) (apply_projects d)
        (λ t r e. apply-of_kind (codes "project") project t r (unfold eq_text in refl) e)
        projects-other (λ c t. refl) (λ c c' t. refl) (λ t. refl)

  worktrees-rows :
      (s t t' : Projections Json) (rs : List (StoredEvent Payload))
      → s.worktrees ≡ t.worktrees
      → apply_stored (apply d) t rs ≡ (ok tt, t')
      → apply_stored (apply d) s (filter (of_kind (codes "worktree")) rs)
        ≡ (ok tt, record s { worktrees = t'.worktrees })
  unfolding apply_as kind_of
  worktrees-rows =
      apply_stored-table (apply d) (of_kind (codes "worktree")) (λ t. t.worktrees)
        (λ c t. record t { worktrees = c }) (apply_worktrees d)
        (λ t r e. apply-of_kind (codes "worktree") worktree t r (unfold eq_text in refl) e)
        worktrees-other (λ c t. refl) (λ c c' t. refl) (λ t. refl)

  sessions-rows :
      (s t t' : Projections Json) (rs : List (StoredEvent Payload))
      → s.sessions ≡ t.sessions
      → apply_stored (apply d) t rs ≡ (ok tt, t')
      → apply_stored (apply d) s (filter (of_kind (codes "session")) rs)
        ≡ (ok tt, record s { sessions = t'.sessions })
  unfolding apply_as kind_of
  sessions-rows =
      apply_stored-table (apply d) (of_kind (codes "session")) (λ t. t.sessions)
        (λ c t. record t { sessions = c }) (apply_sessions d)
        (λ t r e. apply-of_kind (codes "session") session t r (unfold eq_text in refl) e)
        sessions-other (λ c t. refl) (λ c c' t. refl) (λ t. refl)

  actions-rows :
      (s t t' : Projections Json) (rs : List (StoredEvent Payload))
      → s.actions ≡ t.actions
      → apply_stored (apply d) t rs ≡ (ok tt, t')
      → apply_stored (apply d) s (filter (of_kind (codes "action")) rs)
        ≡ (ok tt, record s { actions = t'.actions })
  unfolding apply_as kind_of
  actions-rows =
      apply_stored-table (apply d) (of_kind (codes "action")) (λ t. t.actions)
        (λ c t. record t { actions = c }) (apply_actions d)
        (λ t r e. apply-of_kind (codes "action") action t r (unfold eq_text in refl) e)
        actions-other (λ c t. refl) (λ c c' t. refl) (λ t. refl)

  -- Where the rows of the log are in the order of `seq`, and each was applied in turn to an empty
  -- read model without an error, `rebuild_from` makes the same read model of the log, whatever stood
  -- in the tables before.
  pub rebuild_from-apply_stored :
      (before t : Projections Json) (store : EventStore Payload)
      → Increasing seq_of 0 store.rows
      → apply_stored (apply d) empty store.rows ≡ (ok tt, t)
      → rebuild_from d before store ≡ (ok tt, t)
  unfolding rebuild_from of_kind
  rebuild_from-apply_stored before t store log h =
      let t1 : Projections Json = record {
        projects = t.projects;
        worktrees = [];
        sessions = [];
        actions = [];
      } in
      let t2 : Projections Json = record {
        projects = t.projects;
        worktrees = t.worktrees;
        sessions = [];
        actions = [];
      } in
      let t3 : Projections Json = record {
        projects = t.projects;
        worktrees = t.worktrees;
        sessions = t.sessions;
        actions = [];
      } in
      rw
        (
          rebuild_from,
          load_all-eq-filter store (codes "project") log,
          load_all-eq-filter store (codes "worktree") log,
          load_all-eq-filter store (codes "session") log,
          load_all-eq-filter store (codes "action") log,
          projects-rows empty empty t store.rows refl h,
          worktrees-rows t1 empty t store.rows refl h,
          sessions-rows t2 empty t store.rows refl h,
          actions-rows t3 empty t store.rows refl h,
        )
        refl
