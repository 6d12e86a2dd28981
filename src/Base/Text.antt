-- ===== src/Base/Text.antt =====
-- Text operations of the language: decimal numbers, characters, prefixes, stripping.
use Prim.Native.Char.{Char, code}
use Prim.Native.String.{String, ◌++◌}
use Prim.Native.Nat.{ℕ, zero, suc, ◌+◌, ◌/◌, ◌%◌}
use mathlib.Core.Bool.{Bool, true, false, ◌&&◌}
use mathlib.Core.Option.{Option, none, some}
use mathlib.Core.Path.{◌≡◌, refl}
use mathlib.Core.List.{[], ◌∷◌}
use text.Mathlib.Text.{◌==◌ as str_eq}
use mail_sync_portal.Base.Tests.{ltb, ◌==◌, if◌then◌else◌}
use mail_sync_portal.Base.Lists.{any}

-- An int of Python.
pub data ℤ : Type 0 where
  pos : ℕ → ℤ
  negsuc : ℕ → ℤ

-- the text of one digit
digit_text : ℕ → String
digit_text zero = "0"
digit_text (suc zero) = "1"
digit_text (suc (suc zero)) = "2"
digit_text (suc (suc (suc zero))) = "3"
digit_text (suc (suc (suc (suc zero)))) = "4"
digit_text (suc (suc (suc (suc (suc zero))))) = "5"
digit_text (suc (suc (suc (suc (suc (suc zero)))))) = "6"
digit_text (suc (suc (suc (suc (suc (suc (suc zero))))))) = "7"
digit_text (suc (suc (suc (suc (suc (suc (suc (suc zero)))))))) = "8"
digit_text n = "9"

show_fuel : ℕ → ℕ → String
unfolding digit_text
show_fuel zero n = ""
show_fuel (suc f) n = elim (ltb n 10) [
  | true ↦ digit_text n
  | false ↦ show_fuel f (n / 10) ++ digit_text (n % 10)
]

-- str(n)
unfoldable pub show_ℕ : ℕ → String
unfolding show_fuel
show_ℕ n = show_fuel (suc n) n

unfoldable pub show_ℤ : ℤ → String
unfolding show_ℕ
show_ℤ (pos n) = show_ℕ n
show_ℤ (negsuc n) = "-" ++ show_ℕ (n + 1)

-- s.startswith(p)
unfoldable pub starts_with : String → String → Bool
starts_with s String.[] = true
starts_with String.[] (String.◌∷◌ d p) = false
starts_with (String.◌∷◌ c s) (String.◌∷◌ d p) = code c == code d && starts_with s p

-- s.split(sep, 1) for one character, or `none` where it does not occur
cons_left : Char → Option (String × String) → Option (String × String)
cons_left c none = none
cons_left c (some (a, b)) = some (String.◌∷◌ c a, b)

unfoldable pub split_at : ℕ → String → Option (String × String)
unfolding cons_left
split_at sep String.[] = none
split_at sep (String.◌∷◌ c s) = elim (code c == sep) [
  | true ↦ some ("", s)
  | false ↦ cons_left c (split_at sep s)
]

-- The white space of ASCII and Unicode that `str.strip` and `str.split` know.
unfoldable pub is_space : Char → Bool
is_space c =
    any (λ n. code c == n)
      (9 ∷ 10 ∷ 11 ∷ 12 ∷ 13 ∷ 28 ∷ 29 ∷ 30 ∷ 31 ∷ 32 ∷ 133 ∷ 160 ∷ 5760 ∷ 8192 ∷ 8193 ∷ 8194 ∷ 8195
        ∷ 8196 ∷ 8197 ∷ 8198 ∷ 8199 ∷ 8200 ∷ 8201 ∷ 8202 ∷ 8232 ∷ 8233 ∷ 8239 ∷ 8287 ∷ 12288 ∷ [])

unfoldable pub lstrip : String → String
unfolding is_space
lstrip String.[] = ""
lstrip (String.◌∷◌ c s) = if is_space c then lstrip s else String.◌∷◌ c s

unfoldable pub rstrip : String → String
unfolding is_space
rstrip String.[] = ""
rstrip (String.◌∷◌ c s) =
    let rest = rstrip s in if str_eq rest "" && is_space c then "" else String.◌∷◌ c rest

-- s.strip()
unfoldable pub strip : String → String
unfolding lstrip rstrip
strip s = rstrip (lstrip s)

show_samples : (show_ℕ 993 ≡ "993") × (show_ℕ 0 ≡ "0") × (show_ℤ (negsuc 9) ≡ "-10")
unfolding show_ℤ
show_samples = (refl, refl, refl)

strip_both : strip "  a b\n " ≡ "a b"
unfolding strip any
strip_both = refl
