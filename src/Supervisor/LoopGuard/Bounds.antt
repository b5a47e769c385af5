-- ===== src/Supervisor/LoopGuard/Bounds.antt =====
-- What the loop guard promises: a bound on the steps of a run, and a stop on repetition.
use oxyris.Prelude.{
  ℕ, suc, ◌-◌, ◌+◌, ◌≤◌, ◌<◌, ◌^◌, ◌≡◌, refl, Text, Bool, true, false, ltb, leb, ◌==◌, List, [],
  ◌∷◌, ◌++◌, length, append_assoc, leb→le, count, if◌then◌else◌, arith, Bool-cases, inl, inr,
}
use oxyris.Supervisor.LoopGuard.{
  LoopVerdict, ok_verdict, LoopGuard, pop_beyond, fingerprint_hash, observe,
}

abbrev pub is_ok : LoopVerdict → Bool
is_ok ok_verdict = true
is_ok _ = false

-- The queue is cut to its last `window` entries.
pub length-pop_beyond : (w : ℕ) (xs : List ℕ) → length (pop_beyond w xs) ≤ w
unfolding pop_beyond
length-pop_beyond w [] = omega arith
length-pop_beyond w (x ∷ xs) = ground (arith, length-pop_beyond w xs)

-- The guard after one more step, on a prompt with the hash `h`.
abbrev pushed : LoopGuard → ℕ → LoopGuard
pushed g h = record g { steps = g.steps + 1; recent = pop_beyond g.window (g.recent ++ h ∷ []) }

module _ (hasher : Text → ℕ) where
  -- The guard after a list of prompts, and how many of them it let pass.
  pub observe_all : LoopGuard → List Text → ℕ × LoopGuard
  observe_all g [] = (0, g)
  observe_all g (t ∷ ts) =
      let (v, g') = observe hasher g t in
      let (n, g'') = observe_all g' ts in ((if is_ok v then suc n else n), g'')

  pub observe-steps :
      (g : LoopGuard) (t : Text)
      → g.steps + 1 < 2 ^ 64
      → ((observe hasher g t).1.steps ≡ g.steps + 1)
        × ((observe hasher g t).1.max_steps ≡ g.max_steps)
        × (is_ok (observe hasher g t).0 ≡ true → g.steps + 1 ≤ g.max_steps)
  unfolding observe
  observe-steps g t h = ground arith

  -- From a guard with `steps` taken, at most `max_steps - steps` prompts pass, as long as the
  -- counter of 64 bits does not wrap.
  pub observe_all_bound :
      (g : LoopGuard) (ts : List Text)
      → g.steps + length ts < 2 ^ 64
      → (observe_all g ts).0 ≤ g.max_steps - g.steps
  unfolding observe_all
  observe_all_bound g [] fits = omega arith
  observe_all_bound g (t ∷ ts) fits =
      let (steps, cap, passes) = observe-steps g t (omega arith) in
      let rest = observe_all_bound (observe hasher g t).1 ts (rw steps (omega arith)) in
      ground (arith, steps, cap, passes, rest)

  count-snoc :
      (h : ℕ) (xs : List ℕ) → count (λ x. x == h) (xs ++ h ∷ []) ≡ count (λ x. x == h) xs + 1
  unfolding count
  count-snoc h [] = ground arith
  count-snoc h (x ∷ xs) = ground (arith, count-snoc h xs)

  count-pop_beyond :
      (h w : ℕ) (xs : List ℕ) → count (λ x. x == h) (pop_beyond w xs) ≤ count (λ x. x == h) xs
  unfolding count pop_beyond
  count-pop_beyond h w [] = omega arith
  count-pop_beyond h w (x ∷ xs) = ground (arith, count-pop_beyond h w xs)

  -- A prompt whose hash is not among those in the window passes, if a step is left and at least
  -- two repetitions are asked for.
  pub observe-fresh :
      (g : LoopGuard) (t : Text)
      → g.steps + 1 < 2 ^ 64
      → g.steps < g.max_steps
      → 1 < g.repeat_limit
      → count (λ x. x == fingerprint_hash hasher t) g.recent ≡ 0
      → (observe hasher g t).0 ≡ ok_verdict
  unfolding observe
  observe-fresh g t fits left two fresh =
      let h = fingerprint_hash hasher t in
      ground (arith, count-snoc h g.recent, count-pop_beyond h g.window (g.recent ++ h ∷ []))

  pop_beyond-short : (w : ℕ) (ys : List ℕ) → length ys ≤ w → pop_beyond w ys ≡ ys
  unfolding pop_beyond
  pop_beyond-short w [] le = refl
  pop_beyond-short w (y ∷ ys) le = ground (arith, pop_beyond-short w ys)

  -- The cut keeps what was pushed last, if the window has room for it.
  pop_beyond-append :
      (w : ℕ) (xs ys : List ℕ)
      → length ys ≤ w
      → (zs : List ℕ) × (pop_beyond w (xs ++ ys) ≡ zs ++ ys)
  unfolding pop_beyond
  pop_beyond-append w [] ys le = ([], pop_beyond-short w ys le)
  pop_beyond-append w (x ∷ xs) ys le = elim (Bool-cases (ltb w (length (x ∷ xs ++ ys)))) [
    | inl cut ↦ let (zs, e) = pop_beyond-append w xs ys le in (zs, rw cut e)
    | inr kept ↦ (x ∷ xs, rw kept)
  ]

  observe-push :
      (g : LoopGuard) (t : Text)
      → g.steps + 1 < 2 ^ 64
      → g.steps + 1 ≤ g.max_steps
      → (observe hasher g t).1 ≡ pushed g (fingerprint_hash hasher t)
  unfolding observe
  observe-push g t fits left = ground arith

  count_three : (h : ℕ) (zs : List ℕ) → 3 ≤ count (λ x. x == h) (zs ++ h ∷ h ∷ h ∷ [])
  unfolding count
  count_three h [] = ground arith
  count_three h (z ∷ zs) = ground (arith, count_three h zs)

  observe-full :
      (g : LoopGuard) (t : Text)
      → g.steps + 1 < 2 ^ 64
      → g.repeat_limit
        ≤ count
            (λ x. x == fingerprint_hash hasher t)
            (pop_beyond g.window (g.recent ++ fingerprint_hash hasher t ∷ []))
      → is_ok (observe hasher g t).0 ≡ false
  unfolding observe
  observe-full g t fits full = ground arith

  -- What the queue holds after three pushes of one hash.
  three_pushes :
      (h w : ℕ) (xs : List ℕ)
      → 3 ≤ w
      → 3
        ≤ count
            (λ x. x == h)
            (pop_beyond w (pop_beyond w (pop_beyond w (xs ++ h ∷ []) ++ h ∷ []) ++ h ∷ []))
  three_pushes h w xs room =
      let (us, ea) = pop_beyond-append w xs (h ∷ []) (omega arith) in
      let (vs, eb) = pop_beyond-append w us (h ∷ h ∷ []) (omega arith) in
      let (zs, ec) = pop_beyond-append w vs (h ∷ h ∷ h ∷ []) (omega arith) in
      rw (ea, append_assoc, eb, append_assoc, ec) (count_three h zs)

  -- The same prompt three times in a row is not let pass the third time, if the window holds
  -- three prompts and at most three repetitions are allowed.
  pub observe-third :
      (g : LoopGuard) (t : Text)
      → g.steps + 3 < 2 ^ 64
      → 3 ≤ g.window
      → g.repeat_limit ≤ 3
      → let g' = (observe hasher g t).1 in
        let g'' = (observe hasher g' t).1 in is_ok (observe hasher g'' t).0 ≡ false
  observe-third g t fits room limit = elim (Bool-cases (leb (g.steps + 3) g.max_steps)) [
    | inl left ↦
        let le = leb→le (g.steps + 3) g.max_steps left in
        let h = fingerprint_hash hasher t in
        rw (observe-push g t (omega arith) (omega (arith, le))) (
          rw (observe-push (pushed g h) t (omega arith) (omega (arith, le))) (
            observe-full (pushed (pushed g h) h) t (omega arith)
              (omega (arith, three_pushes h g.window g.recent room))))
    | inr gone ↦
        let (s1, m1, p1) = observe-steps g t (omega arith) in
        let g' = (observe hasher g t).1 in
        let (s2, m2, p2) = observe-steps g' t (omega (arith, s1)) in
        let g'' = (observe hasher g' t).1 in
        let (s3, m3, p3) = observe-steps g'' t (omega (arith, s1, s2)) in
        ground (arith, s1, m1, s2, m2, p3, gone)
  ]
