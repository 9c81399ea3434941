-- ===== src/Base/Format.antt =====
-- What f-strings print: numbers in decimal, and texts joined by a separator.
use langchain_azure.Base.{
  ℕ, zero, suc, ◌+◌, ◌-◌, ◌*◌, ◌/◌, ◌%◌, ◌≤◌, ◌<◌, List, [], ◌∷◌, ◌++◌, if◌then◌else◌, ltb, ◌≡◌,
  refl, sym, ap, ◌∙◌, arith, false, Bool-cases, inl, inr,
}
use langchain_azure.Base.Words.{Text, codes}

decimal : ℕ → ℕ → Text → Text
decimal zero n acc = acc
decimal (suc fuel) n acc =
    let more = decimal fuel (n / 10) ((48 + n % 10) ∷ acc) in
    if ltb n 10 then (48 + n) ∷ acc else more

-- str(n); a number has at most as many digits as its value, and one more.
unfoldable pub show_number : ℕ → Text
unfolding decimal
show_number n = decimal (suc n) n []

-- ", ".join(texts)
unfoldable pub comma_joined : List Text → Text
comma_joined [] = []
comma_joined (t ∷ []) = t
comma_joined (t ∷ u ∷ rest) = t ++ codes ", " ++ comma_joined (u ∷ rest)

-- int(text), continued from a value.
read_digits : ℕ → Text → ℕ
read_digits a [] = a
read_digits a (c ∷ t) = read_digits (a * 10 + (c - 48)) t

ltb-false : (a b : ℕ) → ltb a b ≡ false → b ≤ a
ltb-false a b h = ground arith

read_digits-decimal :
    (fuel n : ℕ) (acc : Text) → n < fuel → read_digits 0 (decimal fuel n acc) ≡ read_digits n acc
unfolding decimal read_digits
read_digits-decimal zero n acc h = absurd (omega arith)
read_digits-decimal (suc fuel) n acc h = elim (Bool-cases (ltb n 10)) [
  | inl small ↦ rw small (ap (λ m. read_digits m acc) (omega arith))
  | inr large ↦
      (let big = ltb-false n 10 large in
        rw large (
          read_digits-decimal fuel (n / 10) ((48 + n % 10) ∷ acc) (omega (arith, big))
          ∙ ap (λ m. read_digits m acc) (omega (arith, big))))
]

pub show_number_injective : (m n : ℕ) → show_number m ≡ show_number n → m ≡ n
unfolding show_number read_digits
show_number_injective m n h =
    sym (read_digits-decimal (suc m) m [] (omega arith))
    ∙ ap (λ t. read_digits 0 t) h
    ∙ read_digits-decimal (suc n) n [] (omega arith)

decimal_first :
    (fuel n : ℕ) (acc : Text)
    → n < fuel
    → (c : ℕ) × (t : Text) × (decimal fuel n acc ≡ c ∷ t) × (48 ≤ c)
unfolding decimal
decimal_first zero n acc h = absurd (omega arith)
decimal_first (suc fuel) n acc h = elim (Bool-cases (ltb n 10)) [
  | inl small ↦ (48 + n, acc, rw small refl, omega arith)
  | inr large ↦
      (let big = ltb-false n 10 large in
        let (c, t, e, digit) =
          decimal_first fuel (n / 10) ((48 + n % 10) ∷ acc) (omega (arith, big)) in
        (c, t, rw large e, digit))
]

-- The text of a number starts with a digit.
pub show_number_first : (n : ℕ) → (c : ℕ) × (t : Text) × (show_number n ≡ c ∷ t) × (48 ≤ c)
unfolding show_number
show_number_first n = decimal_first (suc n) n [] (omega arith)
