-- ===== src/Imapsync/Flags/Laws.antt =====
-- What the gate for flags lets through.
use mail_sync_portal.Base.{
  ◌≡◌, refl, sym, ap, subst, String, Bool, true, false, Option, none, some, List, [], ◌∷◌, ◌||◌,
  inl, inr, arith, str_eq, eq_iff, any, Bool-cases, Option-cases, some_eq, ◌↔◌, starts_with,
  split_at, strip, All,
}
use mail_sync_portal.Imapsync.Shlex.{split}
use mail_sync_portal.Imapsync.Flags.{
  allowed_flags, find_flag, is_dangerous, Result, ok, err, map_ok, split_flag, Parsed, alone,
  with_value, awaits_value, parse_known, parse_flag, scan, validate_custom_flags, validate_tokens,
}

-- A list of arguments that has only flags of the table, each with a value exactly where the table
-- asks for one.
pub data IsAllowed : List String → Type 0 where
  end : IsAllowed []
  flag :
      (name : String) (rest : List String)
      → find_flag name allowed_flags ≡ some false
      → IsAllowed rest
      → IsAllowed (name ∷ rest)
  valued :
      (name value : String) (rest : List String)
      → find_flag name allowed_flags ≡ some true
      → IsAllowed rest
      → IsAllowed (name ∷ value ∷ rest)

-- What a parsed token says of its flag.
abbrev Known : Result Parsed → Type 0
Known (err e) = Unit
Known (ok (alone name)) = find_flag name allowed_flags ≡ some false
Known (ok (with_value name v)) = find_flag name allowed_flags ≡ some true
Known (ok (awaits_value name)) = find_flag name allowed_flags ≡ some true

parse_known-Known :
    (name : String) (inline : Option String) (o : Option Bool)
    → find_flag name allowed_flags ≡ o
    → Known (parse_known name inline o)
unfolding parse_known
parse_known-Known name inline none e = tt
parse_known-Known name (some v) (some true) e = e
parse_known-Known name none (some true) e = e
parse_known-Known name (some v) (some false) e = tt
parse_known-Known name none (some false) e = e

parse_flag-Known : (tok : String) → Known (parse_flag tok)
unfolding parse_flag
parse_flag-Known tok = elim (Bool-cases (starts_with tok "--")) [
  | inl s ↦ elim (Bool-cases (is_dangerous (split_flag tok).0)) [
    | inl d ↦ rw (parse_flag, s, d) tt
    | inr d ↦ rw (parse_flag, s, d) (parse_known-Known (split_flag tok).0 (split_flag tok).1 _ refl)
  ]
  | inr s ↦ rw (parse_flag, s) tt
]

-- A result that is a refusal or an allowed list.
abbrev Sound : Result (List String) → Type 0
Sound (err e) = Unit
Sound (ok argv) = IsAllowed argv

Sound-flag :
    (name : String) (r : Result (List String))
    → find_flag name allowed_flags ≡ some false
    → Sound r
    → Sound (map_ok (λ argv. name ∷ argv) r)
Sound-flag name (ok argv) k h = flag name argv k h
Sound-flag name (err e) k h = tt

Sound-valued :
    (name v : String) (r : Result (List String))
    → find_flag name allowed_flags ≡ some true
    → Sound r
    → Sound (map_ok (λ argv. name ∷ v ∷ argv) r)
Sound-valued name v (ok argv) k h = valued name v argv k h
Sound-valued name v (err e) k h = tt

abbrev Awaited : Option String → Type 0
Awaited none = Unit
Awaited (some name) = find_flag name allowed_flags ≡ some true

scan-Sound : (o : Option String) (tokens : List String) → Awaited o → Sound (scan o tokens)
unfolding scan
scan-Sound none [] k = end
scan-Sound (some name) [] k = tt
scan-Sound (some name) (v ∷ rest) k =
    Sound-valued name v (scan none rest) k (scan-Sound none rest tt)
scan-Sound none (tok ∷ rest) k =
    go (parse_flag tok) (parse_flag-Known tok) (scan-Sound none rest tt)
      (λ name q. scan-Sound (some name) rest q)
  where
    go :
        (r : Result Parsed)
        → Known r
        → Sound (scan none rest)
        → ((name : String)
            → find_flag name allowed_flags ≡ some true
            → Sound (scan (some name) rest))
        → Sound (elim r [
          | err e ↦ err e
          | ok (alone name) ↦ map_ok (λ argv. name ∷ argv) (scan none rest)
          | ok (with_value name v) ↦ map_ok (λ argv. name ∷ v ∷ argv) (scan none rest)
          | ok (awaits_value name) ↦ scan (some name) rest
        ])
    go (err e) q h n = tt
    go (ok (alone name)) q h n = Sound-flag name _ q h
    go (ok (with_value name v)) q h n = Sound-valued name v _ q h
    go (ok (awaits_value name)) q h n = n name q

validate-Sound : (text : String) → Sound (validate_custom_flags text)
unfolding validate_custom_flags validate_tokens
validate-Sound text = elim (Bool-cases (str_eq text "" || str_eq (strip text) "")) [
  | inl e ↦ rw e end
  | inr e ↦ rw e (elim (Option-cases (split text)) [
    | inl f ↦ rw f tt
    | inr (tokens, f) ↦ rw f (scan-Sound none tokens tt)
  ])
]

-- What the gate accepts has only flags of the table, each with a value exactly where the table asks
-- for one.
pub validate-IsAllowed :
    (text : String) (argv : List String) → validate_custom_flags text ≡ ok argv → IsAllowed argv
validate-IsAllowed text argv e = subst Sound e (validate-Sound text)

-- What a bare flag of the table is parsed to.
abbrev bare : String × Bool → Parsed
bare (name, true) = awaits_value name
bare (name, false) = alone name

table-parsed : All (λ e. parse_flag e.0 ≡ ok (bare e)) allowed_flags
unfolding parse_flag parse_known find_flag split_flag split_at is_dangerous starts_with any
table-parsed = (
  refl,
  (
    refl,
    (
      refl,
      (
        refl,
        (
          refl,
          (
            refl,
            (
              refl,
              (
                refl,
                (
                  refl,
                  (
                    refl,
                    (
                      refl,
                      (
                        refl,
                        (
                          refl,
                          (
                            refl,
                            (
                              refl,
                              (
                                refl,
                                (refl, (refl, (refl, (refl, (refl, (refl, (refl, (refl, tt)))))))),
                              ),
                            ),
                          ),
                        ),
                      ),
                    ),
                  ),
                ),
              ),
            ),
          ),
        ),
      ),
    ),
  ),
)

-- A property of the whole table holds of a flag that is found in it.
pub find_flag-All :
    (P : String × Bool → Type 0) (table : List (String × Bool)) (name : String) (b : Bool)
    → All P table
    → find_flag name table ≡ some b
    → P (name, b)
unfolding find_flag
find_flag-All P [] name b h e = absurd (ground arith)
find_flag-All P ((n, c) ∷ table) name b h e = elim (Bool-cases (str_eq name n)) [
  | inl q ↦
      let same : name ≡ n = (eq_iff name n).0 q in
      let value : c ≡ b = some_eq _ _ (rw q at e) in
      subst (λ m. P (m, b)) (sym same) (subst (λ d. P (n, d)) value h.0)
  | inr q ↦ find_flag-All P table name b h.1 (rw q at e)
]

known-parsed :
    (name : String) (b : Bool)
    → find_flag name allowed_flags ≡ some b
    → parse_flag name ≡ ok (bare (name, b))
known-parsed name b e =
    find_flag-All (λ q. parse_flag q.0 ≡ ok (bare q)) allowed_flags name b table-parsed e

-- Every list with only flags of the table, each with its value, passes unchanged, whatever the values.
pub scan-accepts : (argv : List String) → IsAllowed argv → scan none argv ≡ ok argv
unfolding scan
scan-accepts argv end = refl
scan-accepts argv (flag name rest e h) =
    rw (known-parsed name false e, scan) (rw (scan-accepts rest h) refl)
scan-accepts argv (valued name v rest e h) =
    rw (known-parsed name true e, scan) (rw (scan-accepts rest h) refl)

-- The gate accepts a list of tokens as it stands exactly where its flags are in the table.
pub scan-fixed : (argv : List String) → (scan none argv ≡ ok argv) ↔ IsAllowed argv
scan-fixed argv = (λ e. subst Sound e (scan-Sound none argv tt), scan-accepts argv)

-- The values in a list of allowed flags.
pub values : {argv : List String} → IsAllowed argv → List String
values end = []
values (flag name rest e h) = values h
values (valued name v rest e h) = v ∷ values h

-- A test that no flag of the table passes is passed by some argument exactly if by some value.
pub any-values :
    (p : String → Bool)
    → ((name : String) (b : Bool) → find_flag name allowed_flags ≡ some b → p name ≡ false)
    → (argv : List String) (h : IsAllowed argv) → any p argv ≡ any p (values h)
unfolding any values
any-values p names argv end = refl
any-values p names argv (flag name rest e h) = rw (names name false e) (any-values p names rest h)
any-values p names argv (valued name v rest e h) =
    rw (names name true e) (ap (λ b. p v || b) (any-values p names rest h))
