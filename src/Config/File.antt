-- ===== src/Config/File.antt =====
-- config/config.go: what `loadEnvFile` sets.
use mathlib.Core.List.{reverse-append, reverse-reverse, append_assoc}
use modigo_runner.Base.{
  ℕ, ◌≡◌, ◌≢◌, refl, sym, ap, ◌∙◌, inl, inr, Bool, true, false, not, ◌&&◌, ◌||◌, List, [], ◌∷◌,
  ◌++◌, Option, none, some, Text, codes, is_empty, arith, trim_space, trim_space_ends, is_space,
  has_prefix, split, split_of_free, lookup-insert_self, lookup-insert_ne, is_free, ◌==◌, Bool-cases,
  Option-cases,
}
use modigo_runner.Config.{
  Env, newline, equals, get_env, set_env, cut, unquote, unquote_ends, set_unless, load_line,
  load_lines, load_env_file,
}

abbrev pub quote : ℕ
quote = b'"'

-- No byte of a variable's name or value that `os.Setenv` refuses.
abbrev pub settable : (key value : Text) → Bool
settable key value = not (is_empty key) && is_free equals key && is_free 0 key && is_free 0 value

set_env-other :
    (k key value : Text) (env : Env) → key ≢ k → get_env k (set_env key value env) ≡ get_env k env
unfolding set_env get_env
set_env-other k key value env ne = ground (arith, lookup-insert_ne {k = key} {j = k} value env ne)

set_unless-kept :
    (k key value : Text) (env : Env)
    → is_empty (get_env k env) ≡ false
    → get_env k (set_unless key value env) ≡ get_env k env
unfolding set_unless
set_unless-kept k key value env h = elim (Bool-cases (is_empty (get_env key env))) [
  | inr e ↦ rw (e, set_unless) refl
  | inl e ↦
      rw (e, set_unless)
        (set_env-other k key value env (λ same.
          let apart : true ≡ false = sym e ∙ ap (λ x. is_empty (get_env x env)) same ∙ h in
          ground arith))
]

load_line-kept :
    (k line : Text) (env : Env)
    → is_empty (get_env k env) ≡ false
    → get_env k (load_line line env) ≡ get_env k env
unfolding load_line
load_line-kept k raw env h =
    let line = trim_space raw in
    elim (Bool-cases (is_empty line || has_prefix line (codes "#"))) [
      | inl e ↦ rw (e, load_line) refl
      | inr e ↦ elim (Option-cases (cut equals line)) [
        | inl c ↦ rw (e, c, load_line) refl
        | inr ((key, value), c) ↦
            rw (e, c, load_line)
              (set_unless-kept k (trim_space key) (unquote (trim_space value)) env h)
      ]
    ]

load_lines-kept :
    (k : Text) (lines : List Text) (env : Env)
    → is_empty (get_env k env) ≡ false
    → get_env k (load_lines lines env) ≡ get_env k env
unfolding load_lines
load_lines-kept k [] env h = refl
load_lines-kept k (line ∷ lines) env h =
    let first = load_line-kept k line env h in
    load_lines-kept k lines (load_line line env) (ap is_empty first ∙ h) ∙ first

-- A variable that is set and not empty keeps its value, whatever the file says.
pub load_env_file-kept :
    (k : Text) (file : Option Text) (env : Env)
    → is_empty (get_env k env) ≡ false
    → get_env k (load_env_file file env) ≡ get_env k env
unfolding load_env_file
load_env_file-kept k none env h = refl
load_env_file-kept k (some file) env h = load_lines-kept k (split file newline) env h

cut-append : (s t : Text) → is_free equals s ≡ true → cut equals (s ++ equals ∷ t) ≡ some (s, t)
unfolding cut
cut-append [] t h = refl
cut-append (c ∷ s) t h = ground (arith, cut-append s t)

unquote-quoted : (value : Text) → unquote (quote ∷ value ++ quote ∷ []) ≡ value
unfolding unquote unquote_ends
unquote-quoted value = rw (reverse-append value (quote ∷ [])) (reverse-reverse value)

-- A line `KEY="value"`.
abbrev pub quoted : (key value : Text) → Text
quoted key value = key ++ equals ∷ (quote ∷ value ++ quote ∷ [])

trim_space-quoted :
    (b : ℕ) (s value : Text)
    → is_space b ≡ false
    → trim_space (quoted (b ∷ s) value) ≡ quoted (b ∷ s) value
trim_space-quoted b s value h =
    let shape : b ∷ (s ++ equals ∷ quote ∷ value) ++ quote ∷ [] ≡ quoted (b ∷ s) value =
      ap (λ x. b ∷ x) (append_assoc s (equals ∷ quote ∷ value) (quote ∷ [])) in
    sym (ap trim_space shape) ∙ trim_space_ends b (s ++ equals ∷ quote ∷ value) quote h refl ∙ shape

set_env_self :
    (key value : Text) (env : Env)
    → settable key value ≡ true
    → get_env key (set_env key value env) ≡ value
unfolding set_env get_env
set_env_self key value env h = ground (arith, lookup-insert_self key value env)

-- A file of the line `KEY="value"` sets the variable to just that value, quotes, "#" and white space
-- within it included, if it was not set or empty: for a name that begins with neither white space nor
-- "#", that trimming leaves alone and that `os.Setenv` takes, and a line without a line break.
pub load_env_file-quoted :
    (b : ℕ) (s value : Text) (env : Env)
    → is_space b ≡ false
    → (b == b'#') ≡ false
    → trim_space (b ∷ s) ≡ b ∷ s
    → settable (b ∷ s) value ≡ true
    → is_free newline (quoted (b ∷ s) value) ≡ true
    → is_empty (get_env (b ∷ s) env) ≡ true
    → get_env (b ∷ s) (load_env_file (some (quoted (b ∷ s) value)) env) ≡ value
unfolding load_env_file load_lines load_line set_unless has_prefix
load_env_file-quoted b s value env space hash trim ok one_line unset =
    let key_free : is_free equals (b ∷ s) ≡ true = ground arith in
    rw
      (
        split_of_free (quoted (b ∷ s) value) newline one_line,
        load_env_file,
        load_lines,
        load_line,
        trim_space-quoted b s value space,
        hash,
        cut-append (b ∷ s) (quote ∷ value ++ quote ∷ []) key_free,
        trim,
        trim_space_ends quote value quote refl refl,
        unquote-quoted value,
        set_unless,
        unset,
      )
      (set_env_self (b ∷ s) value env ok)
