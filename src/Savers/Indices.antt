-- ===== src/Savers/Indices.antt =====
-- The keys of the pending writes of one task tell their indices apart.
use langchain_azure.Base.{ℕ, ◌+◌, ◌∷◌, ◌++◌, String, ◌≡◌, sym, ap, ◌∙◌, arith}
use langchain_azure.Base.Words.{Text, codes, append_cancel}
use langchain_azure.Base.Integer.{ℤ, pos, negsuc}
use langchain_azure.Base.Format.{show_number, show_number_injective, show_number_first}
use langchain_azure.Savers.Keys.{show_int, write_key}

cons_first : (c d : ℕ) (s t : Text) → c ∷ s ≡ d ∷ t → c ≡ d
cons_first c d s t h = cc

minus_digit : (n : ℕ) (t : Text) → show_number n ≡ codes "-" ++ t → ⊥
minus_digit n t h =
    let (c, rest, e, digit) = show_number_first n in
    let first : c ≡ 45 = cons_first c 45 rest t (sym e ∙ h) in absurd (omega (arith, first, digit))

show_int_injective : (i j : ℤ) → show_int i ≡ show_int j → i ≡ j
show_int_injective (pos m) (pos n) h = ap pos (show_number_injective m n h)
show_int_injective (pos m) (negsuc n) h = absurd (minus_digit m (show_number (n + 1)) h)
show_int_injective (negsuc m) (pos n) h = absurd (minus_digit n (show_number (m + 1)) (sym h))
show_int_injective (negsuc m) (negsuc n) h =
    let same =
      show_number_injective (m + 1) (n + 1)
        (append_cancel (codes "-") (show_number (m + 1)) (show_number (n + 1)) h) in
    ap negsuc (omega (arith, same))

pub write_key_injective :
    (ns id task : String) (i j : ℤ) → write_key ns id task i ≡ write_key ns id task j → i ≡ j
unfolding write_key
write_key_injective ns id task i j h = show_int_injective i j (
    append_cancel (codes ns ++ codes "/writes/" ++ codes id ++ codes "/" ++ codes task ++ codes "/")
      (show_int i) (show_int j) h)
