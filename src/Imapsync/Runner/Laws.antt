-- ===== src/Imapsync/Runner/Laws.antt =====
-- What stands among the arguments that `build_argv` returns, and when it refuses.
use Prim.Native.Char.{Char}
use mail_sync_portal.Base.{
  ℤ, pos, negsuc, zero, suc, ◌≡◌, refl, ap, ◌∙◌, subst, String, Bool, true, false, none, some, List,
  [], ◌∷◌, ◌++◌, ◌&&◌, ◌||◌, inl, inr, arith, str_eq, any, some_eq, ◌↔◌, any-append, any-false,
  Bool-cases, if◌then◌else◌, show_ℤ, All,
}
use mail_sync_portal.Imapsync.Flags.{allowed_flags, find_flag}
use mail_sync_portal.Imapsync.Flags.Laws.{IsAllowed, values, any-values, find_flag-All}
use mail_sync_portal.Imapsync.Runner.{
  SyncArgs, is_forbidden, is_word, strip_prefix, connection_argv, max_age, all_argv, build_argv,
}

-- the flags that the module itself writes, but `--delete2`
abbrev fixed_flags : List String
fixed_flags =
    "/usr/local/bin/imapsync" ∷ "--host1" ∷ "--port1" ∷ "--user1" ∷ "--passfile1" ∷ "--ssl1"
    ∷ "--host2" ∷ "--port2" ∷ "--user2" ∷ "--passfile2" ∷ "--ssl2" ∷ "--nolog" ∷ "--tmpdir" ∷ "/tmp"
    ∷ "--automap" ∷ "--no-automap" ∷ "--maxage" ∷ "--dry" ∷ []

max_age_value : ℤ → List String
max_age_value (pos zero) = []
max_age_value (pos (suc n)) = show_ℤ (pos (suc n)) ∷ []
max_age_value (negsuc n) = []

connection_inputs : SyncArgs → List String
connection_inputs a =
    a.source_host
    ∷ show_ℤ a.source_port
    ∷ a.source_user
    ∷ a.source_passfile
    ∷ a.dest_host
    ∷ show_ℤ a.dest_port
    ∷ a.dest_user
    ∷ a.dest_passfile
    ∷ []

-- The arguments that come from the caller's data, without the extra flags.
pub inputs : SyncArgs → List String
unfolding connection_inputs max_age_value
inputs a = connection_inputs a ++ max_age_value a.days_back

-- A test that only `--delete2` may pass among the flags of the module and of the table.
pub record IsQuiet (p : String → Bool) : Type 0 where
  pub fixed : All (λ f. p f ≡ false) fixed_flags
  pub table : (name : String) (b : Bool) → find_flag name allowed_flags ≡ some b → p name ≡ false

module _ (p : String → Bool) (quiet : IsQuiet p) where
  at_maxage : p "--maxage" ≡ false
  at_maxage = quiet.fixed.1.1.1.1.1.1.1.1.1.1.1.1.1.1.1.1.0

  at_dry : p "--dry" ≡ false
  at_dry = quiet.fixed.1.1.1.1.1.1.1.1.1.1.1.1.1.1.1.1.1.0

  any-age : (d : ℤ) → any p (max_age d) ≡ any p (max_age_value d)
  unfolding any max_age max_age_value
  any-age (pos zero) = refl
  any-age (pos (suc n)) = simp (at_maxage) refl
  any-age (negsuc n) = refl

  any-connection : (a : SyncArgs) → any p (connection_argv a) ≡ any p (connection_inputs a)
  unfolding any connection_argv connection_inputs
  any-connection a = ground arith

  any-option : (b : Bool) (f : String) → any p (if b then f ∷ [] else []) ≡ b && p f
  unfolding any
  any-option b f = ground arith

  any-all_argv :
      (a : SyncArgs) (w : IsAllowed a.extra_flags)
      → any p (all_argv a)
        ≡ any p (inputs a)
          || ((a.delete_on_dest_when_missing_from_source && p "--delete2") || any p (values w))
  unfolding all_argv inputs
  any-all_argv a w =
      simp
        (
          any-append,
          any-connection,
          any-age,
          any-option,
          at_dry,
          any-values p quiet.table a.extra_flags w,
        )
        (ground arith)

-- No flag of the module or of the table is one of those that change the source.
pub forbidden-IsQuiet : (is_letter : Char → Bool) → IsQuiet (is_forbidden is_letter)
unfolding is_forbidden is_word strip_prefix any
forbidden-IsQuiet is_letter = record {
  fixed = any-false (is_forbidden is_letter) fixed_flags refl;
  table = λ name b.
      find_flag-All (λ e. is_forbidden is_letter e.0 ≡ false) allowed_flags name b
        (any-false (λ e. is_forbidden is_letter e.0) allowed_flags refl);
}

abbrev pub is_delete2 : String → Bool
is_delete2 s = str_eq s "--delete2"

delete2-IsQuiet : IsQuiet is_delete2
unfolding any
delete2-IsQuiet = record {
  fixed = any-false is_delete2 fixed_flags refl;
  table = λ name b.
      find_flag-All (λ e. is_delete2 e.0 ≡ false) allowed_flags name b
        (any-false (λ e. is_delete2 e.0) allowed_flags refl);
}

delete2-allowed : (is_letter : Char → Bool) → is_forbidden is_letter "--delete2" ≡ false
unfolding is_forbidden is_word strip_prefix any
delete2-allowed is_letter = refl

none_iff_true :
    (i d v : Bool) (argv : List String)
    → ((if i || ((d && false) || v) then none else some argv) ≡ none) ↔ ((i || v) ≡ true)
none_iff_true i d v argv = (λ e. ground arith, λ e. ground arith)

&&_true : (b : Bool) → (b && true) ≡ b
&&_true b = ground arith

built :
    (is_letter : Char → Bool) (a : SyncArgs) (argv : List String)
    → build_argv is_letter a ≡ some argv
    → all_argv a ≡ argv
unfolding build_argv
built is_letter a argv e = elim (Bool-cases (any (is_forbidden is_letter) (all_argv a))) [
  | inl h ↦ absurd (ground arith)
  | inr h ↦ some_eq _ _ (rw h at e)
]

-- What `build_argv` returns has no argument that the last check forbids.
pub build_argv-clean :
    (is_letter : Char → Bool) (a : SyncArgs) (argv : List String)
    → build_argv is_letter a ≡ some argv
    → All (λ x. is_forbidden is_letter x ≡ false) argv
unfolding build_argv
build_argv-clean is_letter a argv e =
    elim (Bool-cases (any (is_forbidden is_letter) (all_argv a))) [
      | inl h ↦ absurd (ground arith)
      | inr h ↦
          subst (All (λ x. is_forbidden is_letter x ≡ false)) (some_eq _ _ (rw h at e))
            (any-false (is_forbidden is_letter) (all_argv a) h)
    ]

-- With extra flags that the gate let through, the last check refuses exactly if a value is forbidden:
-- a host, a user, a passfile, a number, or the value of an extra flag.
pub build_argv-refuses :
    (is_letter : Char → Bool) (a : SyncArgs) (w : IsAllowed a.extra_flags)
    → (build_argv is_letter a ≡ none) ↔ (
        (any (is_forbidden is_letter) (inputs a) || any (is_forbidden is_letter) (values w)) ≡ true)
unfolding build_argv
build_argv-refuses is_letter a w =
    rw (any-all_argv (is_forbidden is_letter) (forbidden-IsQuiet is_letter) a w) (
      rw (delete2-allowed is_letter) (
        none_iff_true (any (is_forbidden is_letter) (inputs a))
          a.delete_on_dest_when_missing_from_source (any (is_forbidden is_letter) (values w))
          (all_argv a)))

-- With extra flags that the gate let through, `--delete2` is among the arguments exactly if the
-- caller asks for the deletion or a value spells it.
pub build_argv-delete2 :
    (is_letter : Char → Bool) (a : SyncArgs) (w : IsAllowed a.extra_flags) (argv : List String)
    → build_argv is_letter a ≡ some argv
    → any is_delete2 argv
      ≡ any is_delete2 (inputs a)
        || (a.delete_on_dest_when_missing_from_source || any is_delete2 (values w))
unfolding build_argv
build_argv-delete2 is_letter a w argv e =
    subst
      (λ l.
        any is_delete2 l
        ≡ any is_delete2 (inputs a)
          || (a.delete_on_dest_when_missing_from_source || any is_delete2 (values w)))
      (built is_letter a argv e)
      (any-all_argv is_delete2 delete2-IsQuiet a w
        ∙ ap (λ b. any is_delete2 (inputs a) || (b || any is_delete2 (values w))) (&&_true _))
