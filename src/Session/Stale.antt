-- ===== src/Session/Stale.antt =====
-- handler/websocket.go: goroutines of old generations, and the paths of files written by a client.
use modigo_runner.Base.{
  ℕ, ◌≡◌, refl, false, [], ◌∷◌, ◌++◌, some, Text, codes, contains, is_empty, text_eq, trim_prefix,
  arith,
}
use modigo_runner.Users.{Users, dec_user_containers}
use modigo_runner.Session.Run.{
  Goroutine, run_waiting, run_reporting, run_closing, shell_waiting, shell_closing,
}
use modigo_runner.Session.Files.{sanitize}

abbrev pub generation_of : Goroutine → ℕ
generation_of (run_waiting gen) = gen
generation_of (run_reporting gen id timed_out) = gen
generation_of (run_closing gen) = gen
generation_of (shell_waiting gen) = gen
generation_of (shell_closing gen) = gen

-- What the goroutine of a run takes from the counts of the users, and that of a shell does not.
abbrev pub uncounted : Goroutine → Text → Users → Users
uncounted (run_waiting gen) user u = dec_user_containers user u
uncounted (run_reporting gen id timed_out) user u = dec_user_containers user u
uncounted (run_closing gen) user u = dec_user_containers user u
uncounted (shell_waiting gen) user u = u
uncounted (shell_closing gen) user u = u

below_code : (q : Text) → text_eq (codes "/code/" ++ q) (codes "/code/") ≡ is_empty q
unfolding text_eq
below_code [] = refl
below_code (c ∷ q) = refl

-- A path that a client's write may use is not empty and has no "..".
pub sanitize-some :
    (path p : Text)
    → sanitize path ≡ some p
    → (is_empty p ≡ false) × (contains p (codes "..") ≡ false)
unfolding sanitize
sanitize-some path p e =
    ground (arith, e, below_code (trim_prefix (trim_prefix path (codes "/")) (codes "./")))
