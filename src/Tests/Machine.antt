-- ===== src/Tests/Machine.antt =====
-- A machine of files in memory.
use oxyris.Prelude.{
  ◌≡◌, ◌∙◌, ap, sym, refl, arith, Text, codes, Bool, true, false, Option, none, some, Result, ok,
  err, if◌then◌else◌, eq_text_refl, Bool-cases, inl, inr,
}
use oxyris.Core.{Environment, local, wsl}
use oxyris.Accounts.Machine.{Machine, read}
use oxyris.Accounts.Machine.Files.{fits, is_file, is_under, reads}
use oxyris.Accounts.Machine.Files as Files
use oxyris.Accounts.Save.Unique.{eq_env_refl}

abbrev pub World : Type 0
World = Environment → Text → Option Text

-- An error is whether the file is not there.
abbrev pub put : World → Environment → Text → Option Text → World
put w env path v env' path' = if is_file env path env' path' then v else w env' path'

-- The rename is refused where the target is broken.
abbrev pub move : (Text → Bool) → World → Environment → Text → Text → Result Bool (Unit {0}) × World
move broken w env from to = elim (w env from) [
  | none ↦ (err true, w)
  | some t ↦
      if broken to then (err false, w) else (ok tt, put (put w env from none) env to (some t))
]

abbrev pub take_away : World → Environment → Text → Bool → Result Bool (Unit {0}) × World
take_away w env path true =
    (ok tt, λ env' path'. if is_under env path env' path' then none else w env' path')
take_away w env path false = elim (w env path) [
  | none ↦ (err true, w)
  | some t ↦ (ok tt, put w env path none)
]

-- A document that is too long to be read back is refused.
abbrev pub fill : World → Environment → Text → Text → Result Bool (Unit {0}) × World
fill w env path contents =
    if fits env contents then (ok tt, put w env path (some contents)) else (err false, w)

abbrev pub toy_machine : (Text → Bool) → Machine World Bool
toy_machine broken = record {
  is_not_found = λ e. e;
  read_to_string = λ w path. elim (w local path) [ none ↦ err true | some s ↦ ok s ];
  fs_read = λ w distro path. elim (w (wsl distro) path) [
    | none ↦ err true
    | some s ↦ ok (record { truncated = false; content = some s })
  ];
  create_parent = λ w path. (ok tt, w);
  write_file = λ w env path contents. fill w env path contents;
  rename = λ w env from to. move broken w env from to;
  delete = λ w env path recursive. take_away w env path recursive;
  uuid = λ w. codes "0";
  wsl_distro_running = λ w distro. true;
}

reads_world :
    (broken : Text → Bool) (w : World) (env : Environment) (path : Text)
    → reads (Unit {0}) (toy_machine broken) w env path ≡ ok (w env path)
unfolding read
reads_world broken w local path = ground (arith)
reads_world broken w (wsl distro) path = ground (arith)

is_file_self : (env : Environment) (path : Text) → is_file env path env path ≡ true
is_file_self env path = rw (eq_env_refl env, eq_text_refl path) refl

put_self :
    (w : World) (env : Environment) (path : Text) (v : Option Text) → put w env path v env path ≡ v
put_self w env path v = rw (is_file_self env path) refl

put-other :
    (w : World) (env env' : Environment) (path path' : Text) (v : Option Text)
    → is_file env path env' path' ≡ false
    → put w env path v env' path' ≡ w env' path'
put-other w env env' path path' v h = rw h refl

module _ (broken : Text → Bool) where
  -- What a file reads as follows from what it holds.
  reads_as :
      (v w' : World) (env : Environment) (path : Text) (o : Option Text)
      → v ≡ w'
      → v env path ≡ o
      → reads (Unit {0}) (toy_machine broken) w' env path ≡ ok o
  reads_as v w' env path o e h =
      reads_world broken w' env path ∙ ap ok (ap (λ (u : World). u env path) (sym e) ∙ h)

  alike :
      (v w w' : World) (env : Environment) (path : Text)
      → v ≡ w'
      → v env path ≡ w env path
      → reads (Unit {0}) (toy_machine broken) w' env path
        ≡ reads (Unit {0}) (toy_machine broken) w env path
  alike v w w' env path e h =
      reads_as v w' env path (w env path) e h ∙ sym (reads_world broken w env path)

  abbrev snd_eq :
      {r r' : Result Bool (Unit {0})} {w w' : World}
      → (let p : Result Bool (Unit {0}) × World = (r, w) in p) ≡ (r', w')
      → w ≡ w'
  snd_eq h = ap (λ (p : Result Bool (Unit {0}) × World). p.1) h

  moved :
      (w w' : World) (env : Environment) (from to : Text) (o : Option Text)
      → w env from ≡ o
      → move broken w env from to ≡ (ok tt, w')
      → reads (Unit {0}) (toy_machine broken) w' env to
        ≡ reads (Unit {0}) (toy_machine broken) w env from
  moved w w' env from to none there h = absurd (cc (rw (move, there) at h))
  moved w w' env from to (some t) there h = elim (Bool-cases (broken to)) [
    | inl b ↦ absurd (cc (rw (move, there, b) at h))
    | inr b ↦
        reads_as (put (put w env from none) env to (some t)) w' env to (some t)
          (snd_eq (rw (move, there, b) at h)) (put_self (put w env from none) env to (some t))
        ∙ sym (reads_as w w env from (some t) refl there)
  ]

  moved_other :
      (w w' : World) (env : Environment) (from to : Text) (env' : Environment) (path' : Text)
      (o : Option Text)
      → w env from ≡ o
      → move broken w env from to ≡ (ok tt, w')
      → is_file env from env' path' ≡ false
      → is_file env to env' path' ≡ false
      → reads (Unit {0}) (toy_machine broken) w' env' path'
        ≡ reads (Unit {0}) (toy_machine broken) w env' path'
  moved_other w w' env from to env' path' none there h n k = absurd (cc (rw (move, there) at h))
  moved_other w w' env from to env' path' (some t) there h n k = elim (Bool-cases (broken to)) [
    | inl b ↦ absurd (cc (rw (move, there, b) at h))
    | inr b ↦
        alike (put (put w env from none) env to (some t)) w w' env' path'
          (snd_eq (rw (move, there, b) at h))
          (put-other (put w env from none) env env' to path' (some t) k
            ∙ put-other w env env' from path' none n)
  ]

  not_moved :
      (w w' : World) (env : Environment) (from to : Text) (e : Bool) (o : Option Text)
      → w env from ≡ o
      → move broken w env from to ≡ (err e, w')
      → w ≡ w'
  not_moved w w' env from to e none there h = snd_eq (rw (move, there) at h)
  not_moved w w' env from to e (some t) there h = elim (Bool-cases (broken to)) [
    | inl b ↦ snd_eq (rw (move, there, b) at h)
    | inr b ↦ absurd (cc (rw (move, there, b) at h))
  ]

  taken :
      (w w' : World) (env : Environment) (path : Text) (r : Result Bool (Unit {0}))
      (o : Option Text)
      → w env path ≡ o
      → take_away w env path false ≡ (r, w')
      → reads (Unit {0}) (toy_machine broken) w' env path ≡ ok none
  taken w w' env path r none there h =
      reads_as w w' env path none (snd_eq (rw (take_away, there) at h)) there
  taken w w' env path r (some t) there h =
      reads_as (put w env path none) w' env path none (snd_eq (rw (take_away, there) at h))
        (put_self w env path none)

  taken_other :
      (w w' : World) (env : Environment) (path : Text) (r : Result Bool (Unit {0}))
      (env' : Environment) (path' : Text) (o : Option Text)
      → w env path ≡ o
      → take_away w env path false ≡ (r, w')
      → is_file env path env' path' ≡ false
      → reads (Unit {0}) (toy_machine broken) w' env' path'
        ≡ reads (Unit {0}) (toy_machine broken) w env' path'
  taken_other w w' env path r env' path' none there h n =
      alike w w w' env' path' (snd_eq (rw (take_away, there) at h)) refl
  taken_other w w' env path r env' path' (some t) there h n =
      alike (put w env path none) w w' env' path' (snd_eq (rw (take_away, there) at h))
        (put-other w env env' path path' none n)

  filled_other :
      (w w' : World) (env : Environment) (path contents : Text) (r : Result Bool (Unit {0}))
      (env' : Environment) (path' : Text)
      → fill w env path contents ≡ (r, w')
      → is_file env path env' path' ≡ false
      → reads (Unit {0}) (toy_machine broken) w' env' path'
        ≡ reads (Unit {0}) (toy_machine broken) w env' path'
  filled_other w w' env path contents r env' path' h n = elim (Bool-cases (fits env contents)) [
    | inl room ↦
        alike (put w env path (some contents)) w w' env' path' (snd_eq (rw (fill, room) at h))
          (put-other w env env' path path' (some contents) n)
    | inr long ↦ alike w w w' env' path' (snd_eq (rw (fill, long) at h)) refl
  ]

  pub toy_machine-IsRoomy : (env : Environment) → Files.IsRoomy (Unit {0}) (toy_machine broken) env
  toy_machine-IsRoomy env w path contents h = elim (Bool-cases (fits env contents)) [
    | inl room ↦ room
    | inr long ↦ absurd (cc (rw (fill, long) at h))
  ]

  pub toy_machine-IsLawful : Files.IsLawful (Unit {0}) (toy_machine broken)
  toy_machine-IsLawful = record {
    after_create_parent = λ w w' path r h env' path'. alike w w w' env' path' (snd_eq h) refl;
    reads-write_file = λ w w' env path contents h room.
        reads_as (put w env path (some contents)) w' env path (some contents)
          (snd_eq (rw (fill, room) at h)) (put_self w env path (some contents));
    after_write_file = λ w w' env path contents r env' path' h n.
        filled_other w w' env path contents r env' path' h n;
    reads-rename =
        λ w w' env from to contents h there. moved w w' env from to (w env from) refl h ∙ there;
    after_rename_ok = λ w w' env from to env' path' h n k.
        moved_other w w' env from to env' path' (w env from) refl h n k;
    after_rename_err = λ w w' from to e h env' path'.
        alike w w w' env' path' (not_moved w w' local from to e (w local from) refl h) refl;
    after_rename_lost = λ w w' distro from to e env' path' h _ _.
        alike w w w' env' path' (not_moved w w' (wsl distro) from to e (w (wsl distro) from) refl h)
          refl;
    reads-rename_lost = λ w w' distro from to contents e h there. inl (
        alike w w w' (wsl distro) to
          (not_moved w w' (wsl distro) from to e (w (wsl distro) from) refl h) refl);
    after_delete = λ w w' env path r env' path' h n.
        taken_other w w' env path r env' path' (w env path) refl h n;
    after_delete_all = λ w w' env dir r env' path' h n.
        alike (λ e p. if is_under env dir e p then none else w e p) w w' env' path' (snd_eq h)
          (rw n refl);
    reads-delete = λ w w' env path h. taken w w' env path (ok tt) (w env path) refl h;
    reads-delete_absent = λ w w' env path e h a. taken w w' env path (err e) (w env path) refl h;
  }
