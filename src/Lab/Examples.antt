-- ===== src/Lab/Examples.antt =====
-- A lab with a database, on a daemon that answers, and on one that cannot start the target.
use modigo_runner.Base.{◌≡◌, ◌+ℤ◌, pos, refl, [], ◌∷◌, none, some, codes, ok, arith}
use modigo_runner.Docker.Calls.{Trace, create, containers, networks}
use modigo_runner.Lab.{
  LabTarget, LabSession, LabManager, LabAnswers, start_lab, stop_lab, target_host_config,
  target_config,
}
use modigo_runner.Lab.Left.{LeftNetworks, start_lab-left, stop_lab-start_lab}

abbrev manager : LabManager
manager = record { image_prefix = codes "modigo-" }

abbrev database : LabTarget
database = record { target_type = codes "postgres"; image = []; port = pos 0; env = [] }

abbrev answers : LabAnswers
answers = record {
  create_network = ok (codes "n1");
  create = ok (codes "t1");
  connect = none;
  start = none;
  now = pos 1000;
}

abbrev no_start : LabAnswers
no_start = record answers { start = some (codes "no space") }

start_lab-left_example :
    LeftNetworks [] (start_lab manager no_start (codes "lab-1-0") database (pos 300) [])
    × (containers (start_lab manager no_start (codes "lab-1-0") database (pos 300) []).0
        ≡ codes "t1" ∷ [])
start_lab-left_example =
    start_lab-left manager no_start (codes "lab-1-0") database (pos 300) [] (λ id e. tt)

abbrev with_student : LabSession
with_student = record {
  session_id = codes "lab-1-0";
  network_id = codes "n1";
  student_id = codes "s1";
  target_ids = codes "t1" ∷ [];
  target_hostname = codes "target";
  expires_at = pos 1000 +ℤ pos 300;
}

abbrev running : Trace
running =
    create (codes "s1") (target_config [] [] []) target_host_config
    ∷ (start_lab manager answers (codes "lab-1-0") database (pos 300) []).0

stop_lab-start_lab_example :
    ((start_lab manager answers (codes "lab-1-0") database (pos 300) []).1
      ≡ ok (record with_student { student_id = [] }))
    × (containers (stop_lab (some with_student) running) ≡ [])
    × (networks (stop_lab (some with_student) running) ≡ [])
stop_lab-start_lab_example =
    stop_lab-start_lab manager answers (codes "lab-1-0") database (pos 300) (codes "n1")
      (codes "t1") 115 (codes "1") (target_config [] [] []) target_host_config [] refl refl refl
      refl tt tt ((λ e. ground arith), tt)
