-- ===== src/Watchdog/Guarded.antt =====
-- What a round never does: it does not answer a menu that the denylist matches, but for the return
-- that repeats an earlier answer, and it does not answer one screen twice.
use oxyris.Prelude.{
  ℕ, Text, codes, Bool, true, none, some, [], ◌∷◌, ◌++◌, ◌≡◌, ◌⊎◌, inl, inr, refl, arith, ap, ◌∙◌,
  Bool-cases,
}
use oxyris.Supervisor.Types.{Mission, PendingKind, AutopilotContext, approval_text}
use oxyris.Supervisor.Guardrails.{first_match}
use oxyris.Supervisor.Controller.{denied}
use oxyris.Supervisor.Controller.Safety.{step-denied}
use oxyris.Watchdog.Act.{World, emit, write, disengage, Screens, act, carry_out, drive}
use oxyris.Watchdog.Loop.{
  Phase, observe, awaiting_start, Watch, Tick, is, ask_of, fingerprint, observe_round,
  awaiting_round, phase_round, meanwhile, round, is_engaged,
}

module _ (hasher : Text → ℕ) (to_lowercase : Text → Text) (is_match : Text → Text → Bool)
    (mission : Mission) (cwd : Text) where
  drive-denied :
      (screens : Screens) (ask : PendingKind) (name : Text) (w : World)
      → denied is_match ask ≡ some name
      → (drive to_lowercase is_match hasher mission cwd screens ask w).1.written ≡ w.written
  unfolding drive
  drive-denied screens ask name w h =
      let ctx : AutopilotContext = record {
        mission = mission;
        transcript = record { title = none; recent_output = screens.recent_output };
        cwd = cwd;
      } in
      rw (step-denied is_match hasher screens.decide w.pilot ctx ask name h)
        (unfold carry_out act emit disengage in refl)

  observe_round-denied :
      (t : Tick) (fp : ℕ) (s : Watch) (name : Text) (w : World)
      → denied is_match (ask_of t) ≡ some name
      → (observe_round hasher to_lowercase is_match mission cwd t fp s w).1.written ≡ w.written
  unfolding observe_round
  observe_round-denied t fp s name w h = ground (arith, drive-denied t.screens (ask_of t) name w h)

  meanwhile-written : (t : Tick) (w : World) → (meanwhile t w).written ≡ w.written
  unfolding meanwhile disengage
  meanwhile-written t w = ground arith

  awaiting_round-denied :
      (t : Tick) (fp since retries : ℕ) (s : Watch) (w : World)
      → let after =
          (awaiting_round hasher to_lowercase is_match mission cwd t fp since retries s w).1 in
        (after.written ≡ w.written)
        ⊎ (is fp s.last_acted_fp ≡ true) × (after.written ≡ w.written ++ codes "\r" ∷ [])
  unfolding awaiting_round emit write disengage
  awaiting_round-denied t fp since retries s w = ground arith

  -- What a round may send that meets a menu of the denylist: nothing, or one bare return, where it
  -- waits for an answer to take effect and the screen is the one that was answered.
  abbrev pub Guarded : Tick → Watch → World → World → Type 0
  Guarded t s w after =
      (after.written ≡ w.written)
      ⊎ (since retries : ℕ) × (s.phase ≡ awaiting_start since retries)
        × (is (fingerprint hasher t.tail) s.last_acted_fp ≡ true)
        × (after.written ≡ w.written ++ codes "\r" ∷ [])

  Guarded-from :
      (t : Tick) (s : Watch) (w w' after : World)
      → w'.written ≡ w.written
      → Guarded t s w' after
      → Guarded t s w after
  Guarded-from t s w w' after kept (inl still) = inl (still ∙ kept)
  Guarded-from t s w w' after kept (inr (since, retries, at, same, sent)) =
      inr (since, retries, at, same, sent ∙ ap (λ ts. ts ++ codes "\r" ∷ []) kept)

  phase_round-denied :
      (phase : Phase) (t : Tick) (s : Watch) (name : Text) (w : World)
      → s.phase ≡ phase
      → denied is_match (ask_of t) ≡ some name
      → Guarded t s w (phase_round hasher to_lowercase is_match mission cwd phase t s w).1
  unfolding phase_round
  phase_round-denied observe t s name w at asked =
      inl (observe_round-denied t (fingerprint hasher t.tail) s name w asked)
  phase_round-denied (awaiting_start since retries) t s name w at asked =
      elim (awaiting_round-denied t (fingerprint hasher t.tail) since retries s w) [
        | inl still ↦ inl still
        | inr (same, sent) ↦ inr (since, retries, at, same, sent)
      ]

  -- A round that meets a menu whose text a pattern of the denylist matches sends nothing to the
  -- terminal, in either phase, but for one bare return where the watchdog waits for an earlier
  -- answer to take effect and the screen has the fingerprint of the one that was answered.
  pub round-denied :
      (t : Tick) (s : Watch) (name : Text) (w : World)
      → t.needs_input ≡ true
      → first_match is_match t.tail ≡ some name
      → Guarded t s w (round hasher to_lowercase is_match mission cwd t s w).1
  unfolding round
  round-denied t s name w menu h =
      let asked : denied is_match (ask_of t) ≡ some name =
        unfold denied approval_text in rw menu h in
      let kept = meanwhile-written t w in
      let done =
        Guarded-from t s w (meanwhile t w)
          (phase_round hasher to_lowercase is_match mission cwd s.phase t s (meanwhile t w)).1 kept
          (phase_round-denied s.phase t s name (meanwhile t w) refl asked) in
      elim (Bool-cases (is_engaged t.lock_free w)) [
        | inr out ↦ rw out (inl refl)
        | inl here ↦ elim (Bool-cases (is_engaged t.lock_free_again (meanwhile t w))) [
          | inr out ↦ rw (here, out) (inl kept)
          | inl still ↦ rw (here, still) done
        ]
      ]

  observe_round-acted :
      (t : Tick) (fp : ℕ) (s : Watch) (w : World)
      → is fp s.last_acted_fp ≡ true
      → (observe_round hasher to_lowercase is_match mission cwd t fp s w).1 ≡ w
  unfolding observe_round
  observe_round-acted t fp s w h = ground arith

  awaiting_round-acted :
      (t : Tick) (fp since retries : ℕ) (s : Watch) (w : World)
      → let after =
          (awaiting_round hasher to_lowercase is_match mission cwd t fp since retries s w).1 in
        (after.pilot ≡ w.pilot)
        × ((after.written ≡ w.written) ⊎ (after.written ≡ w.written ++ codes "\r" ∷ []))
  unfolding awaiting_round emit write disengage
  awaiting_round-acted t fp since retries s w = ground arith

  phase_round-acted :
      (phase : Phase) (t : Tick) (s : Watch) (w : World)
      → is (fingerprint hasher t.tail) s.last_acted_fp ≡ true
      → let after = (phase_round hasher to_lowercase is_match mission cwd phase t s w).1 in
        (after.pilot ≡ w.pilot)
        × ((after.written ≡ w.written) ⊎ (after.written ≡ w.written ++ codes "\r" ∷ []))
  unfolding phase_round
  phase_round-acted observe t s w h =
      rw (observe_round-acted t (fingerprint hasher t.tail) s w h) (refl, inl refl)
  phase_round-acted (awaiting_start since retries) t s w h =
      awaiting_round-acted t (fingerprint hasher t.tail) since retries s w

  -- A round that meets the screen that was answered last leaves the pilot as it was, and sends the
  -- terminal nothing or one bare return.
  pub round-acted :
      (t : Tick) (s : Watch) (w : World)
      → is (fingerprint hasher t.tail) s.last_acted_fp ≡ true
      → let after = (round hasher to_lowercase is_match mission cwd t s w).1 in
        (after.pilot ≡ w.pilot)
        × ((after.written ≡ w.written) ⊎ (after.written ≡ w.written ++ codes "\r" ∷ []))
  unfolding round
  round-acted t s w h =
      let kept : (meanwhile t w).pilot ≡ w.pilot = unfold meanwhile disengage in ground arith in
      let acted = phase_round-acted s.phase t s (meanwhile t w) h in
      ground (arith, kept, meanwhile-written t w, acted)
