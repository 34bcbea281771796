-- ===== src/Prelude/Suffix.antt =====
-- The end of a text: `strings.HasSuffix` and `strings.TrimSuffix`.
use Prim.Native.Nat.{◌-◌}
use mathlib.Core.Path.{◌≡◌, refl, sym, ap, ◌∙◌}
use mathlib.Core.Logic.{◌↔◌}
use mathlib.Core.Bool.{true}
use mathlib.Core.List.{[], ◌∷◌, ◌++◌}
use native.Mathlib.Omega.{arith}
use bytefetch.Prelude.Tests.{leb}
use bytefetch.Prelude.Lists.{length, take, drop, length-append, take-append-drop}
use bytefetch.Prelude.Texts.{Text, same, same_iff, same_refl, has_suffix, trim_suffix}

drop-append : (m t : Text) → drop (length m) (m ++ t) ≡ t
drop-append [] t = refl
drop-append (c ∷ m) t = drop-append m t

take-append : (m t : Text) → take (length m) (m ++ t) ≡ m
take-append [] t = refl
take-append (c ∷ m) t = ap (λ u. c ∷ u) (take-append m t)

append-minus : (m t : Text) → length (m ++ t) - length t ≡ length m
append-minus m t = rw (length-append m t) (omega arith)

pub has_suffix-append : (m t u : Text) → length u ≡ length t → has_suffix (m ++ t) u ≡ same t u
unfolding has_suffix
has_suffix-append m t u h =
    let fits : leb (length u) (length (m ++ t)) ≡ true = rw (length-append m t) (ground arith) in
    rw (fits, h, append-minus m t, drop-append m t) refl

pub trim_suffix-append : (m t : Text) → trim_suffix (m ++ t) t ≡ m
unfolding trim_suffix
trim_suffix-append m t =
    rw (has_suffix-append m t t refl, same_refl t, append-minus m t) (take-append m t)

-- A text has the suffix where some text stands before it.
pub has_suffix_iff : (s t : Text) → (has_suffix s t ≡ true) ↔ ((p : Text) × (s ≡ p ++ t))
unfolding has_suffix
has_suffix_iff s t = (
  (λ h.
      let k = length s - length t in
      let tail : drop k s ≡ t = (same_iff (drop k s) t).0 (ground arith) in
      (take k s, sym (take-append-drop k s) ∙ ap (λ u. take k s ++ u) tail)),
  (λ (p, e). rw e (has_suffix-append p t t refl ∙ same_refl t)),
)
