-- ===== src/Service/Languages.antt =====
-- handler/languages.go: the list of languages.
use modigo_runner.Base.{List, [], ◌∷◌, Text, codes}

pub record LanguageInfo : Type 0 where
  pub id : Text
  pub name : Text
  pub version : Text
  pub extensions : List Text

abbrev language : Text → Text → Text → List Text → LanguageInfo
language id name version extensions = record {
  id = id;
  name = name;
  version = version;
  extensions = extensions;
}

unfoldable pub languages_response : List LanguageInfo
languages_response =
    language (codes "python") (codes "Python") (codes "3.12") (codes ".py" ∷ [])
    ∷ language (codes "javascript") (codes "JavaScript") (codes "Node 22")
        (codes ".js" ∷ codes ".mjs" ∷ [])
    ∷ language (codes "c") (codes "C") (codes "GCC 14") (codes ".c" ∷ [])
    ∷ language (codes "cpp") (codes "C++") (codes "GCC 14") (codes ".cpp" ∷ codes ".cc" ∷ [])
    ∷ language (codes "go") (codes "Go") (codes "1.22") (codes ".go" ∷ [])
    ∷ language (codes "java") (codes "Java") (codes "Temurin 21") (codes ".java" ∷ [])
    ∷ language (codes "rust") (codes "Rust") (codes "1.82") (codes ".rs" ∷ [])
    ∷ []
