-- ===== src/Config/Csv.antt =====
-- config/config.go: the lists that `getEnvCSV` reads.
use modigo_runner.Base.{
  ℕ, ◌≡◌, refl, true, false, List, [], ◌∷◌, Text, is_empty, trim_space, split-join_with, is_free,
  join_with, All,
}
use modigo_runner.Config.{Env, get_env, csv_parts, get_env_csv}

abbrev comma : ℕ
comma = b','

-- An entry of a list: some text without a comma and without white space around it.
abbrev pub IsEntry : Text → Type 0
IsEntry p = (is_empty p ≡ false) × (is_free comma p ≡ true) × (trim_space p ≡ p)

IsEntry-free : (ps : List Text) → All IsEntry ps → All (λ p. is_free comma p ≡ true) ps
IsEntry-free [] h = tt
IsEntry-free (p ∷ ps) (h, hs) = (h.1, IsEntry-free ps hs)

csv_parts-entries : (ps : List Text) → All IsEntry ps → csv_parts ps ≡ ps
unfolding csv_parts
csv_parts-entries [] h = refl
csv_parts-entries (p ∷ ps) ((some_text, free, trim), hs) =
    rw (trim, some_text, csv_parts-entries ps hs) refl

is_empty-join_with :
    (p : Text) (ps : List Text) → is_empty p ≡ false → is_empty (join_with comma (p ∷ ps)) ≡ false
is_empty-join_with p [] h = h
is_empty-join_with [] (q ∷ qs) h = refl
is_empty-join_with (c ∷ p) (q ∷ qs) h = refl

-- Entries that are joined by commas are read back as they were, if there is one, and each is not empty,
-- has no comma in it and no white space around it.
pub get_env_csv-join_with :
    (env : Env) (key p : Text) (ps fallback : List Text)
    → All IsEntry (p ∷ ps)
    → get_env key env ≡ join_with comma (p ∷ ps)
    → get_env_csv env key fallback ≡ p ∷ ps
unfolding get_env_csv
get_env_csv-join_with env key p ps fallback h e =
    rw
      (
        e,
        get_env_csv,
        is_empty-join_with p ps h.0.0,
        split-join_with comma p ps (IsEntry-free (p ∷ ps) h),
        csv_parts-entries (p ∷ ps) h,
      )
      refl
