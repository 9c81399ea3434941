-- ===== src/Base/Words.antt =====
-- Python text as its code points: prefixes, splitting at a slash and joining, the order of texts.
use Prim.Native.Char.{code}
use Prim.Native.Nat.{ℕ, compare, Ordering}
use Prim.Native.String.{String}
use mathlib.Core.Path.{◌≡◌, refl}
use mathlib.Core.Bool.{Bool, true, false, ◌&&◌, ◌||◌}
use mathlib.Core.List.{List, [], ◌∷◌, ◌++◌}
use native.Mathlib.Omega.{arith}

abbrev pub Text : Type 0
Text = List ℕ

-- The code points of a literal.
abbrev pub codes : String → Text
codes String.[] = []
codes (String.◌∷◌ c s) = code c ∷ codes s

abbrev pub slash : ℕ
slash = 47

abbrev pub same : ℕ → ℕ → Bool
same a b = elim (compare a b) [ Ordering.eq ↦ true | _ ↦ false ]

-- text.startswith(prefix)
unfoldable pub starts_with : Text → Text → Bool
starts_with text [] = true
starts_with [] (p ∷ ps) = false
starts_with (c ∷ cs) (p ∷ ps) = same c p && starts_with cs ps

-- text.endswith(chr(c))
unfoldable pub ends_with : Text → ℕ → Bool
ends_with [] c = false
ends_with (x ∷ []) c = same x c
ends_with (x ∷ y ∷ rest) c = ends_with (y ∷ rest) c

-- needle in text
unfoldable pub contains_text : Text → Text → Bool
unfolding starts_with
contains_text [] needle = starts_with [] needle
contains_text (c ∷ cs) needle = starts_with (c ∷ cs) needle || contains_text cs needle

-- Puts a character in front of the first piece.
abbrev pub onto_first : ℕ → List Text → List Text
onto_first c [] = (c ∷ []) ∷ []
onto_first c (p ∷ ps) = (c ∷ p) ∷ ps

abbrev pub split_step : Bool → ℕ → List Text → List Text
split_step true c rest = [] ∷ rest
split_step false c rest = onto_first c rest

-- text.split(chr(sep)): always at least one piece.
unfoldable pub split_at : ℕ → Text → List Text
split_at sep [] = [] ∷ []
split_at sep (c ∷ cs) = split_step (same c sep) c (split_at sep cs)

-- chr(sep).join(parts)
unfoldable pub join_with : ℕ → List Text → Text
join_with sep [] = []
join_with sep (p ∷ []) = p
join_with sep (p ∷ q ∷ rest) = p ++ sep ∷ join_with sep (q ∷ rest)

-- a <= b for texts, by code points
unfoldable pub text_leb : Text → Text → Bool
text_leb [] b = true
text_leb (x ∷ xs) [] = false
text_leb (x ∷ xs) (y ∷ ys) =
    let rest = text_leb xs ys in
    elim (compare x y) [ Ordering.lt ↦ true | Ordering.eq ↦ rest | Ordering.gt ↦ false ]

pub starts_with-append : (p rest : Text) → starts_with (p ++ rest) p ≡ true
unfolding starts_with
starts_with-append [] rest = refl
starts_with-append (c ∷ p) rest = ground (arith, starts_with-append p rest)

-- A text that starts with `p` is `p` and a rest.
pub starts_with-split : (t p : Text) → starts_with t p ≡ true → (rest : Text) × (t ≡ p ++ rest)
unfolding starts_with
starts_with-split t [] h = (t, refl)
starts_with-split [] (c ∷ p) h = cc
starts_with-split (x ∷ t) (c ∷ p) h =
    let tail = starts_with-split t p (ground arith) in (tail.0, ground (arith, tail.1))

pub append_cancel : (p a b : Text) → p ++ a ≡ p ++ b → a ≡ b
append_cancel [] a b h = h
append_cancel (c ∷ p) a b h = append_cancel p a b (cc)

pub same_refl : (c : ℕ) → same c c ≡ true
same_refl c = ground arith

-- A common front does not matter to a prefix test.
pub starts_with_cancel : (p t q : Text) → starts_with (p ++ t) (p ++ q) ≡ starts_with t q
unfolding starts_with
starts_with_cancel [] t q = refl
starts_with_cancel (c ∷ p) t q = rw (same_refl c) (starts_with_cancel p t q)

pub starts_with_refl : (t : Text) → starts_with t t ≡ true
unfolding starts_with
starts_with_refl [] = refl
starts_with_refl (c ∷ t) = rw (same_refl c) (starts_with_refl t)

-- A prefix of a prefix is a prefix.
pub starts_with_shorter : (t p q : Text) → starts_with t (p ++ q) ≡ true → starts_with t p ≡ true
unfolding starts_with
starts_with_shorter t [] q h = refl
starts_with_shorter [] (c ∷ p) q h = absurd (cc)
starts_with_shorter (x ∷ t) (c ∷ p) q h = ground (arith, starts_with_shorter t p q)

pub text_leb_refl : (a : Text) → text_leb a a ≡ true
unfolding text_leb
text_leb_refl [] = refl
text_leb_refl (x ∷ a) = ground (arith, text_leb_refl a)

pub text_leb_trans :
    (a b c : Text) → text_leb a b ≡ true → text_leb b c ≡ true → text_leb a c ≡ true
unfolding text_leb
text_leb_trans [] b c h k = refl
text_leb_trans (x ∷ a) [] c h k = absurd (cc)
text_leb_trans (x ∷ a) (y ∷ b) [] h k = absurd (cc)
text_leb_trans (x ∷ a) (y ∷ b) (z ∷ c) h k = ground (arith, text_leb_trans a b c)

pub text_leb_total : (a b : Text) → text_leb a b ≡ false → text_leb b a ≡ true
unfolding text_leb
text_leb_total [] b h = absurd (cc)
text_leb_total (x ∷ a) [] h = refl
text_leb_total (x ∷ a) (y ∷ b) h = ground (arith, text_leb_total a b)
