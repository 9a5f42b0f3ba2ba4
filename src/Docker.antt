-- ===== src/Docker.antt =====
-- executor/container.go: languages, and the limits and the network of their containers.
pub mod Confinement
pub mod Staging
pub mod Calls
pub mod Image
pub mod Stage
pub mod Create
pub mod Shell
pub mod Rest
pub mod Inspect
pub mod Archive
pub mod Listing
pub mod ArchiveInside
pub mod ArchiveParents
pub mod Listed
pub mod Neutral
pub mod Networkless
pub mod Leaks
pub mod RestLeaks
mod Examples
use modigo_runner.Base.{
  ℕ, ◌*◌, ◌≡◌, ℤ, pos, Bool, true, false, ◌||◌, List, [], ◌∷◌, ◌++◌, Text, codes, to_lower,
  trim_space, one_of, text_eq, is_empty, if◌then◌else◌,
}
use modigo_runner.Limits.{Limits, parse_memory}

-- The connection to the daemon has no state of its own here.
pub record DockerClient : Type 0 where
  pub prefix : Text
  pub limits : Limits

unfoldable pub normal : Text → Text
normal lang = to_lower (trim_space lang)

-- The cases of a switch over names: the first list that holds the name gives the value.
unfoldable pub switch {ℓ} : {A : Type ℓ} → Text → List (List Text × A) → A → A
switch name [] default = default
switch name ((names, a) ∷ cases) default =
    if one_of name names then a else switch name cases default

abbrev image_names : List (List Text × Text)
image_names =
    (codes "python" ∷ codes "py" ∷ [], codes "python")
    ∷ (codes "javascript" ∷ codes "js" ∷ codes "node" ∷ codes "nodejs" ∷ [], codes "javascript")
    ∷ (codes "c" ∷ [], codes "c")
    ∷ (codes "cpp" ∷ codes "c++" ∷ [], codes "cpp")
    ∷ (codes "go" ∷ codes "golang" ∷ [], codes "go")
    ∷ (codes "java" ∷ [], codes "java")
    ∷ (codes "rust" ∷ codes "rs" ∷ [], codes "rust")
    ∷ (codes "php" ∷ [], codes "php")
    ∷ (codes "cyber" ∷ codes "cybersecurity" ∷ [], codes "cyber")
    ∷ []

unfoldable pub language_to_image : DockerClient → Text → Text
unfolding normal switch
language_to_image d lang = d.prefix ++ switch (normal lang) image_names (normal lang)

abbrev main_files : List (List Text × Text)
main_files =
    (codes "python" ∷ codes "py" ∷ [], codes "main.py")
    ∷ (codes "javascript" ∷ codes "js" ∷ codes "node" ∷ codes "nodejs" ∷ [], codes "index.js")
    ∷ (codes "c" ∷ [], codes "main.c")
    ∷ (codes "cpp" ∷ codes "c++" ∷ [], codes "main.cpp")
    ∷ (codes "go" ∷ codes "golang" ∷ [], codes "main.go")
    ∷ (codes "java" ∷ [], codes "Main.java")
    ∷ (codes "rust" ∷ codes "rs" ∷ [], codes "main.rs")
    ∷ (codes "php" ∷ [], codes "index.php")
    ∷ (codes "cyber" ∷ codes "cybersecurity" ∷ [], codes "main.py")
    ∷ []

unfoldable pub language_to_main_file : Text → Text
unfolding normal switch
language_to_main_file lang = switch (normal lang) main_files (codes "main.txt")

unfoldable pub is_cyber_lang : Text → Bool
unfolding normal
is_cyber_lang lang =
    text_eq (normal lang) (codes "cyber") || text_eq (normal lang) (codes "cybersecurity")

abbrev compiled_names : List Text
compiled_names =
    codes "go"
    ∷ codes "golang"
    ∷ codes "java"
    ∷ codes "rust"
    ∷ codes "rs"
    ∷ codes "c"
    ∷ codes "cpp"
    ∷ codes "c++"
    ∷ []

unfoldable pub is_compiled_lang : Text → Bool
unfolding normal
is_compiled_lang lang = one_of (normal lang) compiled_names

-- The same languages once more, for the compile step.
unfoldable pub is_compiled : Text → Bool
unfolding normal
is_compiled lang = one_of (normal lang) (
    codes "c"
    ∷ codes "cpp"
    ∷ codes "c++"
    ∷ codes "go"
    ∷ codes "golang"
    ∷ codes "java"
    ∷ codes "rust"
    ∷ codes "rs"
    ∷ [])

unfoldable pub network_mode_for_lang : Text → Text
network_mode_for_lang lang = if is_cyber_lang lang then codes "bridge" else codes "none"

unfoldable pub network_mode_or_lab : Text → Text → Text
network_mode_or_lab lang lab_network_id =
    if is_empty lab_network_id then network_mode_for_lang lang else lab_network_id

-- Memory in bytes, CPU period and quota, and the number of processes.
pub record Quota : Type 0 where
  pub memory : ℤ
  pub cpu_period : ℤ
  pub cpu_quota : ℤ
  pub pids_limit : ℤ

unfoldable pub limits_for_lang : DockerClient → Text → Quota
limits_for_lang d lang =
    if is_cyber_lang lang
    then record {
      memory = parse_memory (codes "512m");
      cpu_period = pos 100000;
      cpu_quota = pos 80000;
      pids_limit = pos 128;
    }
    else if is_compiled_lang lang
    then record {
      memory = d.limits.memory;
      cpu_period = pos 100000;
      cpu_quota = pos 80000;
      pids_limit = d.limits.pids_limit;
    }
    else record {
      memory = d.limits.memory;
      cpu_period = d.limits.cpu_period;
      cpu_quota = d.limits.cpu_quota;
      pids_limit = d.limits.pids_limit;
    }

-- In seconds.
unfoldable pub timeout_for_lang : DockerClient → Text → ℤ
timeout_for_lang d lang = if is_cyber_lang lang then pos 120 else d.limits.timeout_secs
