-- ===== src/Config/Examples.antt =====
-- An environment file of one line, and an environment in which one variable is set.
use modigo_runner.Base.{
  ◌≡◌, refl, false, [], ◌∷◌, some, Text, codes, split, trim_space, has_prefix, lookup, insert,
  text_eq, is_empty, value_from, parse_digits, parse_int,
}
use modigo_runner.Config.{
  Env, get_env, set_env, cut, unquote, unquote_ends, set_unless, load_line, load_lines,
  load_env_file, csv_parts, get_env_csv, get_env_str, get_env_int, load,
}
use modigo_runner.Config.File.{quoted, load_env_file-kept, load_env_file-quoted}
use modigo_runner.Config.Csv.{get_env_csv-join_with}

config_code : Unit {0}
unfolding get_env set_env cut unquote unquote_ends set_unless load_line load_lines load_env_file
    split trim_space has_prefix lookup insert text_eq csv_parts get_env_csv get_env_str get_env_int
    load parse_int parse_digits value_from
config_code = tt

abbrev env : Env
env = (codes "PORT", codes "9000") ∷ []

abbrev file : Text
file = codes "# runner\n PORT = 8081\nAUTH_SECRET='a b'\nMAX_PID"

loaded :
    load_env_file (some file) env
    ≡ (codes "PORT", codes "9000") ∷ (codes "AUTH_SECRET", codes "a b") ∷ []
unfolding config_code
loaded = refl

port_set : is_empty (get_env (codes "PORT") env) ≡ false
unfolding config_code
port_set = refl

load_env_file-kept_example :
    get_env (codes "PORT") (load_env_file (some file) env) ≡ get_env (codes "PORT") env
load_env_file-kept_example = load_env_file-kept (codes "PORT") (some file) env port_set

load_env_file-quoted_example :
    get_env (codes "KEY") (load_env_file (some (quoted (codes "KEY") (codes " #\" "))) env)
    ≡ codes " #\" "
unfolding config_code
load_env_file-quoted_example =
    load_env_file-quoted b'K' (codes "EY") (codes " #\" ") env refl refl refl refl refl refl

abbrev origins : Env
origins = (codes "ALLOWED_ORIGINS", codes "https://a.example,https://b.example") ∷ []

get_env_csv-join_with_example :
    get_env_csv origins (codes "ALLOWED_ORIGINS") (codes "*" ∷ [])
    ≡ codes "https://a.example" ∷ codes "https://b.example" ∷ []
unfolding config_code
get_env_csv-join_with_example =
    get_env_csv-join_with origins (codes "ALLOWED_ORIGINS") (codes "https://a.example")
      (codes "https://b.example" ∷ []) (codes "*" ∷ [])
      ((refl, refl, refl), ((refl, refl, refl), tt)) refl
