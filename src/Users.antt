-- ===== src/Users.antt =====
-- handler/websocket.go: the containers of each user, shared by all the sessions, and the run
-- containers that can be evicted.
pub mod Count
pub mod Evict
pub mod Calls
pub mod Order
mod Examples
use modigo_runner.Base.{
  ℕ, ◌-◌, ◌+◌, ℤ, pos, ◌+ℤ◌, ◌-ℤ◌, leb_ℤ, ltb_ℤ, ltb, Bool, true, false, not, List, [], ◌∷◌, Option,
  none, some, Text, lookup, insert, erase, value_from, is_empty, int64_limit, if◌then◌else◌,
}
use modigo_runner.Docker.Calls.{Trace, remove}

-- The maps `userContainers` and `userRuns`; the times are in milliseconds.
pub record Users : Type 0 where
  pub containers : List (Text × ℤ)
  pub runs : List (Text × List (Text × ℕ))

-- `MaxContainersPerUser`
abbrev pub max_containers_per_user : ℤ
max_containers_per_user = pos 3

-- A missing key reads as 0, or as the nil map.
unfoldable pub count_of : Text → Users → ℤ
count_of user u = elim (lookup user u.containers) [ none ↦ pos 0 | some n ↦ n ]

unfoldable pub runs_of : Text → Users → List (Text × ℕ)
runs_of user u = elim (lookup user u.runs) [ none ↦ [] | some m ↦ m ]

unfoldable pub track_user_run : (user id : Text) → ℕ → Users → Users
track_user_run user id now u = record u {
  runs = insert user (insert id now (runs_of user u)) u.runs;
}

unfoldable pub delete_user_run : (user id : Text) → Users → Users
delete_user_run user id u = elim (lookup user u.runs) [
  | none ↦ u
  | some m ↦
      let rest = erase id m in
      record u { runs = if is_empty rest then erase user u.runs else insert user rest u.runs }
]

unfoldable pub inc_user_containers : Text → Users → Bool × Users
inc_user_containers user u =
    if leb_ℤ max_containers_per_user (count_of user u)
    then (false, u)
    else (true, record u { containers = insert user (count_of user u +ℤ pos 1) u.containers })

unfoldable pub dec_user_containers : Text → Users → Users
dec_user_containers user u =
    let left = count_of user u -ℤ pos 1 in
    record u {
      containers =
          if leb_ℤ left (pos 0) then erase user u.containers else insert user left u.containers;
    }

-- The loop over the user's runs, whose order is that of the list: the oldest so far, and its time.
unfoldable pub oldest_run : List (Text × ℕ) → Text × ℕ → Text × ℕ
oldest_run [] best = best
oldest_run ((id, ts) ∷ m) (oldest, oldest_time) =
    oldest_run m (if ltb ts oldest_time then (id, ts) else (oldest, oldest_time))

-- The answer is the evicted container, or the empty text. The source takes each lock in turn; what the
-- calls of other sessions in between do to the counts is in Users.Calls, where a deletion and a decrement
-- are calls of their own.
unfoldable pub evict_oldest_user_container : Text → Users → Trace → Text × Users × Trace
evict_oldest_user_container user u es =
    let oldest = (oldest_run (runs_of user u) ([], int64_limit - 1)).0 in
    if ltb_ℤ (count_of user u) max_containers_per_user
    then ([], u, es)
    else if is_empty oldest
    then ([], u, es)
    else (oldest, dec_user_containers user (delete_user_run user oldest u), remove oldest ∷ es)
