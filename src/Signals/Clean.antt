-- ===== src/Signals/Clean.antt =====
-- What `strip_ansi` leaves.
use oxyris.Prelude.{
  ℕ, zero, suc, ◌-◌, ◌*◌, ◌≤◌, Text, true, Option, [], ◌∷◌, ◌≡◌, refl, ap, ◌∙◌, arith, length,
  length-append, lacks, lacks-append,
}
use oxyris.Signals.Strip.{
  max_cuf_spaces, escape, Mode, plain, escaped, osc, csi, repeat_n, param, csi_final, strip_step,
  strip_from, strip_ansi,
}

lacks-repeat_n : (n : ℕ) → lacks escape (repeat_n b' ' n) ≡ true
unfolding lacks repeat_n
lacks-repeat_n zero = refl
lacks-repeat_n (suc n) = ground (arith, lacks-repeat_n n)

length-repeat_n : (c n : ℕ) → length (repeat_n c n) ≡ n
unfolding repeat_n
length-repeat_n c zero = refl
length-repeat_n c (suc n) = ap suc (length-repeat_n c n)

param-bounds : (p : Option ℕ) → param p ≤ max_cuf_spaces
unfolding param
param-bounds p = ground arith

lacks-csi_final : (fin : ℕ) (p q : Option ℕ) → lacks escape (csi_final fin p q) ≡ true
unfolding csi_final lacks
lacks-csi_final fin p q = ground (arith, lacks-repeat_n (param p), lacks-repeat_n (param q - 1))

length-csi_final : (fin : ℕ) (p q : Option ℕ) → length (csi_final fin p q) ≤ max_cuf_spaces
unfolding csi_final
length-csi_final fin p q = ground (
  arith,
  length-repeat_n b' ' (param p),
  length-repeat_n b' ' (param q - 1),
  param-bounds p,
  param-bounds q,
)

lacks-strip_step : (mode : Mode) (c : ℕ) → lacks escape (strip_step mode c).0 ≡ true
unfolding strip_step lacks
lacks-strip_step plain c = ground arith
lacks-strip_step escaped c = ground arith
lacks-strip_step osc c = ground arith
lacks-strip_step (csi idx p q) f = ground (arith, lacks-csi_final f p q)

length-strip_step : (mode : Mode) (c : ℕ) → length (strip_step mode c).0 ≤ max_cuf_spaces
unfolding strip_step
length-strip_step plain c = ground arith
length-strip_step escaped c = ground arith
length-strip_step osc c = ground arith
length-strip_step (csi idx p q) f = ground (arith, length-csi_final f p q)

lacks-strip_from : (mode : Mode) (s : Text) → lacks escape (strip_from mode s) ≡ true
unfolding strip_from
lacks-strip_from mode [] = unfold lacks in refl
lacks-strip_from mode (c ∷ s) =
    lacks-append escape (strip_step mode c).0 (strip_from (strip_step mode c).1 s)
    ∙ ground (arith, lacks-strip_step mode c, lacks-strip_from (strip_step mode c).1 s)

length-strip_from :
    (mode : Mode) (s : Text) → length (strip_from mode s) ≤ max_cuf_spaces * length s
unfolding strip_from
length-strip_from mode [] = omega arith
length-strip_from mode (c ∷ s) = omega (
  arith,
  length-append (strip_step mode c).0 (strip_from (strip_step mode c).1 s),
  length-strip_step mode c,
  length-strip_from (strip_step mode c).1 s,
)

strip_from-lacks : (s : Text) → lacks escape s ≡ true → strip_from plain s ≡ s
unfolding strip_from strip_step lacks
strip_from-lacks [] h = refl
strip_from-lacks (c ∷ s) h = ground (arith, strip_from-lacks s)

-- No escape is left, a second pass changes nothing, and one character leaves at most 512.
pub strip_ansi-clean :
    (s : Text)
    → (lacks escape (strip_ansi s) ≡ true)
      × (strip_ansi (strip_ansi s) ≡ strip_ansi s)
      × (length (strip_ansi s) ≤ max_cuf_spaces * length s)
unfolding strip_ansi
strip_ansi-clean s = (
  lacks-strip_from plain s,
  strip_from-lacks (strip_from plain s) (lacks-strip_from plain s),
  length-strip_from plain s,
)
