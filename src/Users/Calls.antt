-- ===== src/Users/Calls.antt =====
-- handler/websocket.go: the counts of users over any sequence of the sessions' calls.
use modigo_runner.Base.{ℕ, ◌∙◌, refl, List, [], ◌∷◌, Text, arith, lookup}
use modigo_runner.Users.{
  Users, count_of, track_user_run, delete_user_run, inc_user_containers, dec_user_containers,
  evict_oldest_user_container,
}
use modigo_runner.Users.Count.{IsBounded, inc-IsBounded, dec-IsBounded}
use modigo_runner.Users.Evict.{count-delete, evict-IsBounded}

-- What a session may call for its user; the mutex makes each call one step, and an eviction,
-- which takes its locks in turn, is also a `delete` and a `dec` with others in between.
pub data Call : Type 0 where
  inc dec evict : (user : Text) → Call
  track : (user id : Text) → (now : ℕ) → Call
  delete : (user id : Text) → Call

abbrev pub no_users : Users
no_users = record { containers = []; runs = [] }

unfoldable pub perform : Call → Users → Users
perform (inc user) u = (inc_user_containers user u).1
perform (dec user) u = dec_user_containers user u
perform (evict user) u = (evict_oldest_user_container user u []).1
perform (track user id now) u = track_user_run user id now u
perform (delete user id) u = delete_user_run user id u

unfoldable pub perform_all : List Call → Users → Users
perform_all [] u = u
perform_all (c ∷ cs) u = perform_all cs (perform c u)

perform-IsBounded : (c : Call) (u : Users) → IsBounded u → IsBounded (perform c u)
unfolding perform track_user_run count_of
perform-IsBounded (inc user) u h = inc-IsBounded user u h
perform-IsBounded (dec user) u h = dec-IsBounded user u h
perform-IsBounded (evict user) u h = evict-IsBounded user u [] h
perform-IsBounded (track user id now) u h = h
perform-IsBounded (delete user id) u h =
    λ j. let (n, e, l) = h j in (n, count-delete user j id u ∙ e, l)

perform_all-IsBounded : (cs : List Call) (u : Users) → IsBounded u → IsBounded (perform_all cs u)
unfolding perform_all
perform_all-IsBounded [] u h = h
perform_all-IsBounded (c ∷ cs) u h =
    perform_all-IsBounded cs (perform c u) (perform-IsBounded c u h)

no_users-IsBounded : IsBounded no_users
unfolding count_of lookup
no_users-IsBounded user = (0, refl, omega arith)

-- From the start, whatever the sessions count, end, evict, track and forget, and in whatever order:
-- every user's count is between zero and three.
pub perform_all-no_users : (cs : List Call) → IsBounded (perform_all cs no_users)
perform_all-no_users cs = perform_all-IsBounded cs no_users no_users-IsBounded
