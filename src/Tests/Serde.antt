-- ===== src/Tests/Serde.antt =====
-- A registry that is written as nine pieces for each record.
use oxyris.Prelude.{◌≡◌, ◌∙◌, ap, refl, Text, Option, none, some, List, [], ◌∷◌, ◌++◌, Result, ok}
use oxyris.Prelude.Int.{ℤ, pos, negsuc}
use oxyris.Core.{Environment, local, wsl}
use oxyris.Accounts.Docs.{Plan, pro, max_5x, max_20x, max, team, enterprise, free, unknown}
use oxyris.Accounts.Registry.{Registry, Serde}
use oxyris.Accounts.Save.Registered.{IsFaithful}
use oxyris.Tests.Toy.{shift, pieces, pieces-shift}

join_pieces : List Text → Text
join_pieces [] = []
join_pieces (p ∷ ps) = shift p ++ 0 ∷ join_pieces ps

pieces-join : (ps : List Text) → pieces (join_pieces ps) ≡ ps ++ [] ∷ []
unfolding join_pieces pieces
pieces-join [] = refl
pieces-join (p ∷ ps) = pieces-shift p (join_pieces ps) ∙ ap (λ qs. p ∷ qs) (pieces-join ps)

abbrev env_piece : Environment → Text
env_piece local = []
env_piece (wsl d) = 1 ∷ d

abbrev env_of : Text → Environment
env_of [] = local
env_of (c ∷ d) = wsl d

abbrev option_piece : Option Text → Text
option_piece none = []
option_piece (some t) = 1 ∷ t

abbrev option_of : Text → Option Text
option_of [] = none
option_of (c ∷ t) = some t

abbrev plan_piece : Plan → Text
plan_piece pro = []
plan_piece max_5x = 0 ∷ []
plan_piece max_20x = 0 ∷ 0 ∷ []
plan_piece max = 0 ∷ 0 ∷ 0 ∷ []
plan_piece team = 0 ∷ 0 ∷ 0 ∷ 0 ∷ []
plan_piece enterprise = 0 ∷ 0 ∷ 0 ∷ 0 ∷ 0 ∷ []
plan_piece free = 0 ∷ 0 ∷ 0 ∷ 0 ∷ 0 ∷ 0 ∷ []
plan_piece unknown = 0 ∷ 0 ∷ 0 ∷ 0 ∷ 0 ∷ 0 ∷ 0 ∷ []

abbrev plan_of : Text → Plan
plan_of [] = pro
plan_of (a ∷ []) = max_5x
plan_of (a ∷ b ∷ []) = max_20x
plan_of (a ∷ b ∷ c ∷ []) = max
plan_of (a ∷ b ∷ c ∷ d ∷ []) = team
plan_of (a ∷ b ∷ c ∷ d ∷ e ∷ []) = enterprise
plan_of (a ∷ b ∷ c ∷ d ∷ e ∷ f ∷ []) = free
plan_of (a ∷ b ∷ c ∷ d ∷ e ∷ f ∷ g ∷ r) = unknown

abbrev time_piece : ℤ → Text
time_piece (pos n) = n ∷ []
time_piece (negsuc n) = n ∷ 0 ∷ []

abbrev time_of : Text → ℤ
time_of [] = pos 0
time_of (n ∷ []) = pos n
time_of (n ∷ a ∷ r) = negsuc n

env_back : (e : Environment) → env_of (env_piece e) ≡ e
env_back local = refl
env_back (wsl d) = refl

option_back : (o : Option Text) → option_of (option_piece o) ≡ o
option_back none = refl
option_back (some t) = refl

plan_back : (p : Plan) → plan_of (plan_piece p) ≡ p
plan_back pro = refl
plan_back max_5x = refl
plan_back max_20x = refl
plan_back max = refl
plan_back team = refl
plan_back enterprise = refl
plan_back free = refl
plan_back unknown = refl

time_back : (t : ℤ) → time_of (time_piece t) ≡ t
time_back (pos n) = refl
time_back (negsuc n) = refl

-- The time comes first, and marks a record: the piece at the end is empty.
to_pieces : Registry → List Text
to_pieces [] = []
to_pieces (a ∷ reg) =
    time_piece a.added_at_ms
    ∷ a.id
    ∷ env_piece a.environment
    ∷ a.identity.email
    ∷ option_piece a.identity.display_name
    ∷ a.identity.account_uuid
    ∷ option_piece a.identity.organization_uuid
    ∷ option_piece a.identity.organization_name
    ∷ plan_piece a.plan
    ∷ to_pieces reg

of_pieces : List Text → Registry
of_pieces (t ∷ i ∷ e ∷ m ∷ d ∷ u ∷ o ∷ n ∷ p ∷ rest) =
    record {
      id = i;
      environment = env_of e;
      identity = record {
        email = m;
        display_name = option_of d;
        account_uuid = u;
        organization_uuid = option_of o;
        organization_name = option_of n;
      };
      plan = plan_of p;
      added_at_ms = time_of t;
    }
    ∷ of_pieces rest
of_pieces _ = []

pieces_back : (reg : Registry) → of_pieces (to_pieces reg ++ [] ∷ []) ≡ reg
unfolding to_pieces of_pieces
pieces_back [] = refl
pieces_back (a ∷ reg) = rw (pieces_back reg) (
    rw (env_back a.environment, option_back a.identity.display_name)
      (rw (option_back a.identity.organization_uuid, option_back a.identity.organization_name)
        (rw (plan_back a.plan, time_back a.added_at_ms) refl)))

unfoldable pub encode_toy : Registry → Result (Unit {0}) Text
unfolding join_pieces to_pieces
encode_toy reg = ok (join_pieces (to_pieces reg))

unfoldable pub decode_toy : Text → Option Registry
unfolding of_pieces
decode_toy t = some (of_pieces (pieces t))

abbrev pub toy_serde : Serde (Unit {0})
toy_serde = record { decode = decode_toy; encode = encode_toy }

pub toy_serde-IsFaithful : IsFaithful toy_serde
unfolding encode_toy decode_toy
toy_serde-IsFaithful = record {
  decode-encode = λ reg text h.
      let e : join_pieces (to_pieces reg) ≡ text = cc h in
      ap some (rw (← e) (ap of_pieces (pieces-join (to_pieces reg)) ∙ pieces_back reg));
}
