-- ===== src/Tests/Toy.antt =====
-- Concrete parameters for the account registry: documents as lists of pieces, a machine of files in
-- memory, and a registry of nine pieces for each record.
use oxyris.Prelude.{
  ℕ, zero, suc, ◌≡◌, ◌∙◌, ap, sym, refl, Text, Option, none, some, List, [], ◌∷◌, ◌++◌, ok, eq_text,
  if◌then◌else◌,
}
use oxyris.Accounts.Json.{Json}
use oxyris.Accounts.Json as J

-- Characters go up by one, so that zero can end a piece.
unfoldable pub shift : Text → Text
shift [] = []
shift (c ∷ s) = suc c ∷ shift s

in_front : ℕ → List Text → List Text
in_front c [] = (c ∷ []) ∷ []
in_front c (p ∷ ps) = (c ∷ p) ∷ ps

unfoldable pub pieces : Text → List Text
unfolding in_front
pieces [] = [] ∷ []
pieces (zero ∷ s) = [] ∷ pieces s
pieces (suc c ∷ s) = in_front c (pieces s)

unfoldable pub lookup : Text → List Text → Option Text
lookup k [] = none
lookup k (p ∷ []) = none
lookup k (p ∷ v ∷ ps) = if eq_text k p then some v else lookup k ps

unfoldable pub insert : Text → Text → Text → Text
unfolding shift
insert m k v = shift k ++ 0 ∷ (shift v ++ 0 ∷ m)

pub pieces-shift : (k m : Text) → pieces (shift k ++ 0 ∷ m) ≡ k ∷ pieces m
unfolding pieces shift in_front
pieces-shift [] m = refl
pieces-shift (c ∷ k) m = ap (in_front c) (pieces-shift k m)

abbrev pub toy_json : Json
toy_json = record {
  Value = Text;
  Map = Text;
  Error = Unit {0};
  from_str = λ t. ok t;
  to_string_pretty = λ v. ok v;
  object = λ m. m;
  as_object = λ v. some v;
  as_array = λ v. none;
  as_str = λ v. some v;
  as_i64 = λ v. none;
  as_f64 = λ v. none;
  new = [];
  get = λ m k. lookup k (pieces m);
  insert = insert;
}

lookup-insert :
    (m k i v : Text)
    → lookup i (pieces (insert m k v)) ≡ (if eq_text i k then some v else lookup i (pieces m))
unfolding lookup insert
lookup-insert m k i v =
    ap (lookup i) (pieces-shift k (shift v ++ 0 ∷ m) ∙ ap (λ ps. k ∷ ps) (pieces-shift v m))

pub toy_json-IsLawful : J.IsLawful toy_json
toy_json-IsLawful = record {
  as_object-object = λ m. refl;
  get-new = λ k. unfold lookup pieces in refl;
  get-insert = λ m k i v. lookup-insert m k i v;
  from_str-to_string_pretty = λ v t h. sym h;
}
