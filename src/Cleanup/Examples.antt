-- ===== src/Cleanup/Examples.antt =====
-- A run that has been forgotten for an hour, a lab's target, and a young run.
use modigo_runner.Base.{◌*◌, ◌↔◌, ◌⊎◌, true, ◌≡◌, [], ◌∷◌, Text, codes, ok, arith}
use modigo_runner.Ratelimit.{second}
use modigo_runner.Cleanup.{Found, Listing, list_student_containers, remove_due}
use modigo_runner.Cleanup.Due.{
  IsStudent, IsOld, IsUnique, is_removed, list_student_containers-IsUnique, remove_due_iff,
}

abbrev forgotten : Found
forgotten = record { id = codes "c1"; image = codes "modigo-python"; created = 0 }

abbrev target : Found
target = record { id = codes "t1"; image = codes "modigo-target-web"; created = 0 }

abbrev young : Found
young = record { id = codes "c2"; image = codes "modigo-go"; created = 3590 }

abbrev prefix : Text
prefix = codes "modigo-"

-- The daemon lists the same containers for each query.
abbrev listing : Listing
listing query = ok (forgotten ∷ target ∷ young ∷ [])

list_student_containers-IsUnique_example : IsUnique (list_student_containers listing prefix)
list_student_containers-IsUnique_example = list_student_containers-IsUnique listing prefix

remove_due_iff_example :
    (is_removed
        (codes "c1")
        (remove_due prefix (3600 * second) (1200 * second) (target ∷ forgotten ∷ young ∷ []) [])
      ≡ true)
    ↔ ((IsStudent prefix forgotten × IsOld prefix (3600 * second) (1200 * second) forgotten)
        ⊎ (is_removed (codes "c1") [] ≡ true))
remove_due_iff_example =
    remove_due_iff prefix (3600 * second) (1200 * second) (target ∷ []) forgotten (young ∷ []) []
      (((λ e. ground arith), ((λ e. ground arith), tt)), (((λ e. ground arith), tt), (tt, tt)))
