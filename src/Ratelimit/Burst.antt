-- ===== src/Ratelimit/Burst.antt =====
-- ratelimit/limiter.go: the window that `Allow` calls sliding starts anew at fixed points, so nearly
-- twice the limit passes around such a point.
use modigo_runner.Base.{
  ℕ, zero, suc, ◌+◌, ◌-◌, ◌≤◌, ◌<◌, ◌≡◌, refl, ◌∙◌, ap, pos, Bool, true, List, [], ◌∷◌, ◌++◌, none,
  some, Text, text_eq_refl, arith, lookup,
}
use mathlib.Core.List.{append-nil}
use modigo_runner.Ratelimit.{
  KeyState, Limiter, second, allow, admit, reset_daily, reset_window, count_request, at_limit,
  new_key, entry,
}
use modigo_runner.Ratelimit.Key.{lookup-allow, allow-counts}
use modigo_runner.Ratelimit.Daily.{accepted}

unfoldable pub repeat_request : ℕ → ℕ × Text → List (ℕ × Text)
repeat_request zero q = []
repeat_request (suc n) q = q ∷ repeat_request n q

-- A window of the key began at `w` and has let `c` requests through.
abbrev pub Open : Text → ℕ → ℕ → Limiter → Type 0
Open key w c l =
    (st : KeyState) × (lookup key l.keys ≡ some st) × (st.window_start ≡ w) × (st.window_count ≡ c)

module _ (r : ℕ) (now : ℕ) (today : Text) (st : KeyState) where
  abbrev admitted : KeyState × Bool
  admitted = admit (pos r) (pos 0) now today st

  admit_in_window :
      st.window_start ≤ now
      → now < st.window_start + second
      → st.window_count < r
      → (admitted.1 ≡ true)
        × (admitted.0.window_start ≡ st.window_start)
        × (admitted.0.window_count ≡ st.window_count + 1)
  unfolding admit reset_daily reset_window count_request at_limit
  admit_in_window h1 h2 h3 = ground arith

  admit_next_window :
      st.window_start + second ≤ now
      → 0 < r
      → (admitted.1 ≡ true) × (admitted.0.window_start ≡ now) × (admitted.0.window_count ≡ 1)
  unfolding admit reset_daily reset_window count_request at_limit
  admit_next_window h1 h2 = ground arith

module _ (date_of : ℕ → Text) (key : Text) (r : ℕ) where
  -- The limiter has the limit `r` for a second and none for the day.
  abbrev pub PerSecond : Limiter → Type 0
  PerSecond l = (l.rps ≡ pos r) × (l.daily ≡ pos 0)

  allow-admit :
      (now : ℕ) (l : Limiter) (st : KeyState)
      → PerSecond l
      → entry l key now (date_of now) ≡ st
      → ((allow date_of now key l).1 ≡ (admitted r now (date_of now) st).1)
        × (lookup key (allow date_of now key l).0.keys ≡ some (admitted r now (date_of now) st).0)
  unfolding allow
  allow-admit now l st (e1, e2) e = rw (lookup-allow date_of now key l, e1, e2, e) (refl, refl)

  allow_in_window :
      (w c now : ℕ) (l : Limiter)
      → PerSecond l
      → Open key w c l
      → w ≤ now
      → now < w + second
      → c < r
      → ((allow date_of now key l).1 ≡ true) × Open key w (c + 1) (allow date_of now key l).0
  unfolding entry
  allow_in_window w c now l p (st, e, e1, e2) h1 h2 h3 =
      let (b, at) = allow-admit now l st p (ground arith) in
      let (a, a1, a2) =
        admit_in_window r now (date_of now) st (omega arith) (omega arith) (omega arith) in
      (b ∙ a, ((admitted r now (date_of now) st).0, at, a1 ∙ e1, omega arith))

  allow_next_window :
      (w c now : ℕ) (l : Limiter)
      → PerSecond l
      → Open key w c l
      → w + second ≤ now
      → 0 < r
      → ((allow date_of now key l).1 ≡ true) × Open key now 1 (allow date_of now key l).0
  unfolding entry
  allow_next_window w c now l p (st, e, e1, e2) h1 h2 =
      let (b, at) = allow-admit now l st p (ground arith) in
      let (a, a1, a2) = admit_next_window r now (date_of now) st (omega arith) (omega arith) in
      (b ∙ a, ((admitted r now (date_of now) st).0, at, a1, a2))

  allow_new_key :
      (now : ℕ) (l : Limiter)
      → PerSecond l
      → lookup key l.keys ≡ none
      → 0 < r
      → ((allow date_of now key l).1 ≡ true) × Open key now 1 (allow date_of now key l).0
  unfolding entry new_key
  allow_new_key now l p e h =
      let st = new_key now (date_of now) in
      let (b, at) = allow-admit now l st p (ground arith) in
      let (a, a1, a2) = admit_in_window r now (date_of now) st (omega arith) (omega arith) h in
      (b ∙ a, ((admitted r now (date_of now) st).0, at, a1, a2))

  allow-PerSecond : (now : ℕ) (l : Limiter) → PerSecond l → PerSecond (allow date_of now key l).0
  allow-PerSecond now l (e1, e2) =
      ((allow-counts date_of now key l).rps ∙ e1, (allow-counts date_of now key l).daily ∙ e2)

  accepted-cons :
      (now : ℕ) (rs : List (ℕ × Text)) (l : Limiter)
      → (allow date_of now key l).1 ≡ true
      → accepted date_of key ((now, key) ∷ rs) l
        ≡ suc (accepted date_of key rs (allow date_of now key l).0)
  unfolding accepted
  accepted-cons now rs l h = rw (text_eq_refl key, h) (omega arith)

  -- Requests at one time fill the window up, one by one, and the rest is handled after them.
  accepted_in_window :
      (n w c now : ℕ) (rs : List (ℕ × Text)) (m : ℕ) (l : Limiter)
      → PerSecond l
      → Open key w c l
      → w ≤ now
      → now < w + second
      → c + n ≤ r
      → ((l' : Limiter) → PerSecond l' → Open key w (c + n) l' → accepted date_of key rs l' ≡ m)
      → accepted date_of key (repeat_request n (now, key) ++ rs) l ≡ n + m
  unfolding repeat_request
  accepted_in_window zero w c now rs m l p o h1 h2 h3 rest =
      rest l p (let e : c + 0 ≡ c = omega arith in rw e o) ∙ omega arith
  accepted_in_window (suc n) w c now rs m l p o h1 h2 h3 rest =
      let (b, o') = allow_in_window w c now l p o h1 h2 (omega arith) in
      let next = allow-PerSecond now l p in
      let e : c + 1 + n ≡ c + suc n = omega arith in
      accepted-cons now (repeat_request n (now, key) ++ rs) l b
      ∙ ap suc (
          accepted_in_window n w (c + 1) now rs m (allow date_of now key l).0 next o' h1 h2
            (omega arith) (λ l' p' q. rest l' p' (rw e at q)))
      ∙ omega arith

  accepted_last_window :
      (k n w c now : ℕ) (l : Limiter)
      → k ≡ suc n
      → PerSecond l
      → Open key w c l
      → w + second ≤ now
      → k ≤ r
      → accepted date_of key (repeat_request k (now, key)) l ≡ k
  unfolding repeat_request accepted
  accepted_last_window k n w c now l e p o h1 h2 =
      let (b, o') = allow_next_window w c now l p o h1 (omega arith) in
      rw e (
        accepted-cons now (repeat_request n (now, key)) l b
        ∙ ap suc (
            only_these (
              accepted_in_window n now 1 now [] 0 (allow date_of now key l).0
                (allow-PerSecond now l p) o' (omega arith) (omega arith) (omega arith)
                (λ l' p' q. refl)))
        ∙ omega arith)
    where
      only_these :
          {m : ℕ}
          → accepted date_of key (repeat_request n (now, key) ++ []) (allow date_of now key l).0 ≡ m
          → accepted date_of key (repeat_request n (now, key)) (allow date_of now key l).0 ≡ m
      only_these q = rw append-nil at q

  -- With a positive limit `r` for a second and none for the day, of `r - 1` requests at the last
  -- nanosecond of a key's first window and `r` requests one nanosecond later every one is let through.
  pub burst :
      (t : ℕ) (l : Limiter)
      → 0 < r
      → PerSecond l
      → lookup key l.keys ≡ none
      → accepted date_of key
          (repeat_request (r - 1) (t + second - 1, key) ++ repeat_request r (t + second, key))
          (allow date_of t key l).0
        ≡ (r - 1) + r
  burst t l h p e =
      let (b, o) = allow_new_key t l p e h in
      accepted_in_window (r - 1) t 1 (t + second - 1) (repeat_request r (t + second, key)) r
        (allow date_of t key l).0 (allow-PerSecond t l p) o (omega arith) (omega arith)
        (omega arith)
        (λ l' p' q.
          accepted_last_window r (r - 1) t (1 + (r - 1)) (t + second) l' (omega arith) p' q
            (omega arith) (omega arith))
