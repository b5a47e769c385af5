-- ===== src/Dotenv/Merge.antt =====
-- What a merged file answers for a key.
use oxyris.Prelude.{
  Text, false, not, ◌&&◌, ◌||◌, Option, none, some, List, [], ◌∷◌, ◌++◌, ◌≡◌, inl, inr, refl, ◌∙◌,
  arith, Bool-cases, any, any-append, eq_text, eq_text→eq, eq_text_refl, last, if◌then◌else◌,
}
use oxyris.Dotenv.{
  key_value, comment, blank, Dotenv, get, contains_key, set, overwrite, contains, appended,
  ends_blank, merge,
}

-- The first answer, or the second where there is none.
abbrev pub or_else : Option Text → Option Text → Option Text
or_else none o = o
or_else (some v) o = some v

get-append : (k : Text) (xs ys : Dotenv) → get k (xs ++ ys) ≡ or_else (get k xs) (get k ys)
unfolding get
get-append k [] ys = refl
get-append k (key_value j v x ∷ xs) ys = ground (arith, get-append k xs ys)
get-append k (comment c ∷ xs) ys = get-append k xs ys
get-append k (blank ∷ xs) ys = get-append k xs ys

-- Keys are compared by equality.
eq_text_symm : (s t : Text) → eq_text s t ≡ eq_text t s
unfolding eq_text
eq_text_symm [] [] = refl
eq_text_symm [] (b ∷ t) = refl
eq_text_symm (a ∷ s) [] = refl
eq_text_symm (a ∷ s) (b ∷ t) = ground (arith, eq_text_symm s t)

pub get-set :
    (k j v : Text) (ls : Dotenv) → get k (set j v ls) ≡ (if eq_text j k then some v else get k ls)
unfolding get set
get-set k j v [] = refl
get-set k j v (key_value i w x ∷ ls) = ground (
  arith,
  get-set k j v ls,
  eq_text→eq i j,
  eq_text→eq i k,
  eq_text→eq j k,
  eq_text_refl i,
  eq_text_refl j,
)
get-set k j v (comment c ∷ ls) = get-set k j v ls
get-set k j v (blank ∷ ls) = get-set k j v ls

-- The value that the last line of the key has.
unfoldable pub last_value : Text → Dotenv → Option Text
last_value k [] = none
last_value k (key_value j v x ∷ ls) =
    or_else (last_value k ls) (if eq_text j k then some v else none)
last_value k (comment c ∷ ls) = last_value k ls
last_value k (blank ∷ ls) = last_value k ls

get-overwrite :
    (k : Text) (self : Dotenv) (keys : List Text) (overlay : Dotenv)
    → get k (overwrite self keys overlay).0
      ≡ (if contains_key k self then or_else (last_value k overlay) (get k self) else none)
unfolding overwrite contains_key last_value
get-overwrite k self keys [] = ground arith
get-overwrite k self keys (key_value j v x ∷ overlay) = elim (Bool-cases (contains_key j self)) [
  | inl e ↦
      ground
        (arith, e, get-overwrite k (set j v self) keys overlay, get-set k j v self, eq_text→eq j k)
  | inr e ↦ ground (arith, e, get-overwrite k self (keys ++ j ∷ []) overlay, eq_text→eq j k)
]
get-overwrite k self keys (comment c ∷ overlay) = get-overwrite k self keys overlay
get-overwrite k self keys (blank ∷ overlay) = get-overwrite k self keys overlay

-- The collected keys are those that only the overlay has.
contains-overwrite :
    (k : Text) (self : Dotenv) (keys : List Text) (overlay : Dotenv)
    → contains k (overwrite self keys overlay).1
      ≡ (contains k keys || (contains_key k overlay && not (contains_key k self)))
unfolding overwrite contains_key get any
contains-overwrite k self keys [] = ground arith
contains-overwrite k self keys (key_value j v x ∷ overlay) =
    elim (Bool-cases (contains_key j self)) [
      | inl e ↦ ground (
        arith,
        e,
        contains-overwrite k (set j v self) keys overlay,
        get-set k j v self,
        eq_text→eq j k,
      )
      | inr e ↦ ground (
        arith,
        e,
        contains-overwrite k self (keys ++ j ∷ []) overlay,
        eq_text→eq j k,
        any-append (λ i. eq_text i k) keys (j ∷ []),
      )
    ]
contains-overwrite k self keys (comment c ∷ overlay) = contains-overwrite k self keys overlay
contains-overwrite k self keys (blank ∷ overlay) = contains-overwrite k self keys overlay

get-appended :
    (k : Text) (keys : List Text) (pending overlay : Dotenv)
    → get k pending ≡ none
    → get k (appended keys pending overlay) ≡ (if contains k keys then get k overlay else none)
unfolding appended get
get-appended k keys pending [] h = ground arith
get-appended k keys pending (comment c ∷ overlay) h =
    get-appended k keys (pending ++ comment c ∷ []) overlay
      (get-append k pending (comment c ∷ []) ∙ rw h refl)
get-appended k keys pending (blank ∷ overlay) h = get-appended k keys [] overlay refl
get-appended k keys pending (key_value j v x ∷ overlay) h = ground (
  arith,
  h,
  get-appended k keys [] overlay refl,
  get-append k pending (key_value j v x ∷ appended keys [] overlay),
  eq_text→eq j k,
)

none_of_contains_key : (k : Text) (ls : Dotenv) → contains_key k ls ≡ false → get k ls ≡ none
unfolding contains_key
none_of_contains_key k ls h = ground (arith, h)

-- After a merge, a key of the base has the last value that the overlay gives it, or its own if the
-- overlay gives none; any other key has the first value that the overlay gives it.
pub get-merge :
    (k : Text) (self overlay : Dotenv)
    → get k (merge self overlay)
      ≡ (if contains_key k self then or_else (last_value k overlay) (get k self) else get k overlay)
unfolding merge any
get-merge k self overlay =
    let self' = (overwrite self [] overlay).0 in
    let keys = (overwrite self [] overlay).1 in
    let separator : Dotenv = if ends_blank (last self') then [] else blank ∷ [] in
    let silent : get k separator ≡ none = unfold get in ground arith in
    let before = get-append k (self' ++ separator) (appended keys [] overlay) in
    ground (
      arith,
      get-overwrite k self [] overlay,
      contains-overwrite k self [] overlay,
      before,
      silent,
      get-append k self' separator,
      get-appended k keys [] overlay (unfold get in refl),
      none_of_contains_key k overlay,
      none_of_contains_key k self,
    )
