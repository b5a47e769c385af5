-- ===== src/Watchdog/Stuck.antt =====
-- A terminal that never accepts what was submitted: the watchdog gives up.
use oxyris.Prelude.{
  ℕ, zero, suc, ◌+◌, ◌*◌, ◌-◌, ◌≤◌, ◌<◌, ltb, ltb→lt, leb→le, Bool-cases, inl, inr, Text, codes,
  Bool, true, false, leb, Option, none, some, List, [], ◌∷◌, ◌++◌, ◌≡◌, refl, sym, ap, ◌∙◌, arith,
  append_assoc, append-nil, if◌then◌else◌,
}
use oxyris.Supervisor.Types.{Mission}
use oxyris.Watchdog.Act.{World, error, emit, write, disengage}
use oxyris.Watchdog.Loop.{
  poll_ms, start_timeout_ms, max_submit_retries, gave_up, awaiting_start, Watch, Tick, is,
  fingerprint, awaiting_round, phase_round, meanwhile, round, rounds,
}

-- Every round finds the session engaged and idle on one screen; `last` is the time of the round
-- before.
unfoldable pub Idle : (Text → ℕ) → ℕ → ℕ → List Tick → Type 0
Idle hasher fp last [] = Unit
Idle hasher fp last (t ∷ ts) =
    (t.lock_free ≡ true)
    × (t.user_disengages ≡ false)
    × (t.lock_free_again ≡ true)
    × (t.busy ≡ false)
    × (fingerprint hasher t.tail ≡ fp)
    × (last ≤ t.now)
    × Idle hasher fp t.now ts

-- The rounds that a sleep of the loop precedes, and no wake.
unfoldable pub polls : ℕ → List Tick → ℕ
polls last [] = 0
polls last (t ∷ ts) =
    let rest = polls t.now ts in if leb (last + poll_ms) t.now then suc rest else rest

pub returns_sent : ℕ → List Text
returns_sent zero = []
returns_sent (suc n) = codes "\r" ∷ returns_sent n

module _ (hasher : Text → ℕ) (to_lowercase : Text → Text) (is_match : Text → Text → Bool)
    (mission : Mission) (cwd : Text) where
  abbrev round_of : Tick → Watch → World → Option Watch × World
  round_of = round hasher to_lowercase is_match mission cwd

  round-retry :
      (t : Tick) (since retries : ℕ) (s : Watch) (w : World)
      → s.phase ≡ awaiting_start since retries
      → is (fingerprint hasher t.tail) s.last_acted_fp ≡ true
      → w.engaged ≡ true
      → t.lock_free ≡ true
      → t.user_disengages ≡ false
      → t.lock_free_again ≡ true
      → t.busy ≡ false
      → round_of t s w ≡ (
          if ltb (t.now - since) start_timeout_ms
          then (some s, w)
          else if leb max_submit_retries retries
          then (none, disengage (emit (error gave_up) w))
          else (
            some (record s { phase = awaiting_start t.now (retries + 1) }),
            write (codes "\r") w,
          ))
  unfolding round meanwhile phase_round awaiting_round
  round-retry t since retries s w phase acted engaged free stays again idle =
      rw (free, stays, again, engaged, phase, idle, acted) refl

  abbrev rounds_of : List Tick → Watch → World → Option Watch × World
  rounds_of = rounds hasher to_lowercase is_match mission cwd

  Ended : (List Text) → Option Watch × World → Type 0
  Ended written end = (end.0 ≡ none) × (end.1.engaged ≡ false) × (end.1.written ≡ written)

  rounds-none :
      (t : Tick) (ts : List Tick) (s : Watch) (w w' : World)
      → round_of t s w ≡ (none, w')
      → rounds_of (t ∷ ts) s w ≡ (none, w')
  unfolding rounds
  rounds-none t ts s w w' h = rw (rounds, h) (ap (λ r. (none, r.1)) h)

  rounds-some :
      (t : Tick) (ts : List Tick) (s s' : Watch) (w w' : World)
      → round_of t s w ≡ (some s', w')
      → rounds_of (t ∷ ts) s w ≡ rounds_of ts s' w'
  unfolding rounds
  rounds-some t ts s s' w w' h = rw (rounds, h) (ap (λ r. rounds_of ts s' r.1) h)

  -- The rounds end after the retries that are missing; `waited` polls came since the last return,
  -- and `last` is the time of the last round.
  abbrev Ending : ℕ → List Tick → Type 0
  Ending fp ts =
      (since last waited missing retries : ℕ) (s : Watch) (w : World)
      → missing + retries ≡ max_submit_retries
      → waited ≤ 3
      → since + waited * poll_ms ≤ last
      → s.phase ≡ awaiting_start since retries
      → is fp s.last_acted_fp ≡ true
      → w.engaged ≡ true
      → Idle hasher fp last ts
      → 4 * suc missing ≤ waited + polls last ts
      → Ended (w.written ++ returns_sent missing) (rounds_of ts s w)

  -- A round that is due sends a return and goes on, or gives up.
  rounds-due :
      (t : Tick) (ts : List Tick) (fp missing retries : ℕ) (s : Watch) (w : World)
      → Ending fp ts
      → round_of t s w ≡ (
          if leb max_submit_retries retries then (none, disengage (emit (error gave_up) w)) else (
            some (record s { phase = awaiting_start t.now (retries + 1) }),
            write (codes "\r") w,
          ))
      → missing + retries ≡ max_submit_retries
      → is fp s.last_acted_fp ≡ true
      → w.engaged ≡ true
      → Idle hasher fp t.now ts
      → 4 * missing ≤ polls t.now ts
      → Ended (w.written ++ returns_sent missing) (rounds_of (t ∷ ts) s w)
  unfolding Ended returns_sent emit write disengage
  rounds-due t ts fp zero retries s w next met m acted engaged later enough =
      let stop = disengage (emit (error gave_up) w) in
      let stopped : round_of t s w ≡ (none, stop) = met ∙ ground (arith, m) in
      rw (rounds-none t ts s w stop stopped) (refl, refl, sym (append-nil w.written))
  rounds-due t ts fp (suc missing) retries s w next met m acted engaged later enough =
      let s' = record s { phase = awaiting_start t.now (retries + 1) } in
      let w' = write (codes "\r") w in
      let again : round_of t s w ≡ (some s', w') = met ∙ ground (arith, m) in
      let rest =
        next t.now t.now 0 missing (retries + 1) s' w' (omega (arith, m)) (omega arith)
          (omega arith) refl acted engaged later (omega (arith, enough)) in
      rw (rounds-some t ts s s' w w' again)
        (rest.0, rest.1, rest.2 ∙ append_assoc w.written (codes "\r" ∷ []) (returns_sent missing))

  polls-next : (last : ℕ) (t : Tick) (ts : List Tick) → polls last (t ∷ ts) ≤ suc (polls t.now ts)
  unfolding polls
  polls-next last t ts = ground arith

  polls-wake :
      (last : ℕ) (t : Tick) (ts : List Tick)
      → leb (last + poll_ms) t.now ≡ false
      → polls last (t ∷ ts) ≡ polls t.now ts
  unfolding polls
  polls-wake last t ts h = rw h refl

  rounds-retries : (ts : List Tick) (fp : ℕ) → Ending fp ts
  unfolding Idle polls
  rounds-retries [] fp since last waited missing retries s w m few apart phase acted engaged idle
        enough =
      absurd (omega (arith, few, enough))
  rounds-retries (t ∷ ts) fp since last waited missing retries s w m few apart phase acted engaged
        (free, stays, again, still, same, late, later) enough =
      let met =
        round-retry t since retries s w phase (rw same acted) engaged free stays again still in
      let next = polls-next last t ts in
      elim (Bool-cases (ltb (t.now - since) start_timeout_ms)) [
        | inr due ↦
            rounds-due t ts fp missing retries s w (rounds-retries ts fp) (met ∙ rw due refl) m
              acted engaged later (omega (arith, enough, few, next))
        | inl early ↦
            let n : t.now - since < start_timeout_ms = ltb→lt _ _ early in
            elim (Bool-cases (leb (last + poll_ms) t.now)) [
              | inl poll ↦
                  let slept : last + poll_ms ≤ t.now = leb→le _ _ poll in
                  rw (rounds-some t ts s s w w (met ∙ rw early refl)) (
                    rounds-retries ts fp since t.now (suc waited) missing retries s w m
                      (omega (arith, n, slept, apart)) (omega (arith, slept, apart)) phase acted
                      engaged later (omega (arith, enough, next)))
              | inr wake ↦
                  let none_new = polls-wake last t ts wake in
                  rw (rounds-some t ts s s w w (met ∙ rw early refl)) (
                    rounds-retries ts fp since t.now waited missing retries s w m few
                      (omega (arith, late, apart)) phase acted engaged later
                      (omega (arith, enough, none_new)))
            ]
      ]

  -- A watchdog that has submitted, and finds the screen unchanged and idle in rounds after polls of
  -- 350 ms and after wakes, in any order, returns by the fourth poll for each retry that is left of
  -- three and four more: it has sent one return for each of these retries, and the session is not
  -- engaged any more.
  pub rounds-stuck :
      (ts : List Tick) (fp since missing retries : ℕ) (s : Watch) (w : World)
      → missing + retries ≡ max_submit_retries
      → s.phase ≡ awaiting_start since retries
      → is fp s.last_acted_fp ≡ true
      → w.engaged ≡ true
      → Idle hasher fp since ts
      → 4 * suc missing ≤ polls since ts
      → let end = rounds hasher to_lowercase is_match mission cwd ts s w in
        (end.0 ≡ none)
        × (end.1.engaged ≡ false)
        × (end.1.written ≡ w.written ++ returns_sent missing)
  unfolding Ended
  rounds-stuck ts fp since missing retries s w m phase acted engaged idle enough =
      rounds-retries ts fp since since 0 missing retries s w m (omega arith) (omega arith) phase
        acted engaged idle (omega (arith, enough))
