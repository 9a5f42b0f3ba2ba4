-- ===== src/Ratelimit/Admitted.antt =====
-- ratelimit/limiter.go: `Allow` on the entry of a key, beside the log of what was let through.
use modigo_runner.Base.{
  ℕ, ◌+◌, ◌-◌, ◌≤◌, ◌≡◌, refl, sym, ap, subst, ◌∙◌, inl, inr, ℤ, Bool, true, false, not, ◌&&◌, List,
  ◌∷◌, none, some, Text, text_eq, text_eq_iff, text_eq_refl, arith, leb, if◌then◌else◌, All,
  Bool-cases,
}
use modigo_runner.Ratelimit.{
  KeyState, second, new_key, reset_daily, reset_window, count_request, at_limit, admit,
}
use modigo_runner.Ratelimit.Logs.{window_of, open_count, count_on, admits, Calendar}
use modigo_runner.Ratelimit.Logged.{
  Logged, removed, stored, count_on-passed, All-later, fresh_window, at_limit-zero,
  window_of-Closed, open_count-Closed,
}

module _ (date_of : ℕ → Text) (calendar : Calendar date_of) where
  -- What the entry says once the daily counter is that of today.
  pub record OfToday (now : ℕ) (st : KeyState) (log : List ℕ) : Type 0 where
    pub date : st.daily_date ≡ date_of now
    pub before : All (λ t. t ≤ now) log
    pub count : count_on date_of (date_of now) log ≡ st.daily_count
    pub window : window_of log ≡ some (st.window_start, st.window_count)

  OfToday-Logged :
      {now : ℕ} {st : KeyState} {log : List ℕ}
      → OfToday now st log
      → Logged date_of calendar now (some st) log
  OfToday-Logged {now} o = stored now (omega arith) o.date o.before o.count o.window

  reset_daily-OfToday :
      (now : ℕ) (st : KeyState) (log : List ℕ)
      → Logged date_of calendar now (some st) log
      → OfToday now (reset_daily (date_of now) st) log
  unfolding reset_daily
  reset_daily-OfToday now st log (stored dated le date before count window) =
      elim (Bool-cases (text_eq st.daily_date (date_of now))) [
        | inl e ↦
            let same = (text_eq_iff st.daily_date (date_of now)).0 e in
            rw (e, reset_daily)
              record {
                date = same;
                before = All-later dated now log le before;
                count =
                    subst (λ d. count_on date_of d log ≡ st.daily_count) (sym date ∙ same) count;
                window = window;
              }
        | inr e ↦
            rw (e, reset_daily)
              record {
                date = refl;
                before = All-later dated now log le before;
                count =
                    count_on-passed date_of calendar dated now log le
                      (λ q.
                        let apart = (text_eq_iff st.daily_date (date_of now)).1 (date ∙ q) in
                        ground (arith, e, apart))
                      before;
                window = window;
              }
      ]

  reset_window-open :
      (now : ℕ) (st : KeyState) (log : List ℕ)
      → window_of log ≡ some (st.window_start, st.window_count)
      → (reset_window now st).window_count ≡ open_count now log
  unfolding reset_window
  reset_window-open now st log e = rw (e, open_count) (ground arith)

  -- A window that has just begun is not full.
  reset_window-at_limit :
      (rps : ℤ) (now : ℕ) (st : KeyState)
      → at_limit rps (reset_window now st).window_count ≡ true
      → reset_window now st ≡ st
  unfolding reset_window at_limit
  reset_window-at_limit rps now st h = elim (Bool-cases (leb second (now - st.window_start))) [
    | inl e ↦
        let full = rw (e, reset_window) at h in
        let apart : true ≡ false = sym full ∙ at_limit-zero rps in ground arith
    | inr e ↦ rw (e, reset_window) refl
  ]

  count_request-OfToday :
      (now : ℕ) (st : KeyState) (log : List ℕ)
      → OfToday now st log
      → OfToday now (count_request (reset_window now st)) (now ∷ log)
  unfolding count_request reset_window
  count_request-OfToday now st log o =
      let today : count_on date_of (date_of now) (now ∷ log) ≡ st.daily_count + 1 =
        rw (text_eq_refl (date_of now), count_on) (omega (arith, o.count)) in
      elim (Bool-cases (leb second (now - st.window_start))) [
        | inl e ↦
            let r : reset_window now st ≡ record st { window_start = now; window_count = 0 } =
              rw (e, reset_window) refl in
            subst (λ s. OfToday now (count_request s) (now ∷ log)) (sym r)
              record {
                date = o.date;
                before = (omega arith, o.before);
                count = today;
                window = rw (o.window, e, window_of) refl;
              }
        | inr e ↦
            let r : reset_window now st ≡ st = rw (e, reset_window) refl in
            subst (λ s. OfToday now (count_request s) (now ∷ log)) (sym r)
              record {
                date = o.date;
                before = (omega arith, o.before);
                count = today;
                window = rw (o.window, e, window_of) refl;
              }
      ]

  -- The log of a key once a request of it has been answered.
  abbrev pub log_after : Bool → ℕ → List ℕ → List ℕ
  log_after b now log = if b then now ∷ log else log

  -- An answer that is what the log says, and an entry that fits the log again.
  abbrev pub Answered : (rps daily : ℤ) (now : ℕ) → List ℕ → KeyState × Bool → Type 0
  Answered rps daily now log (st, b) =
      (b ≡ admits date_of rps daily now log)
      × Logged date_of calendar now (some st) (log_after b now log)

  pub admit-stored :
      (rps daily : ℤ) (now : ℕ) (st : KeyState) (log : List ℕ)
      → Logged date_of calendar now (some st) log
      → Answered rps daily now log (admit rps daily now (date_of now) st)
  unfolding admit
  admit-stored rps daily now st log h =
      let st1 = reset_daily (date_of now) st in
      let o = reset_daily-OfToday now st log h in
      let open_now = reset_window-open now st1 log o.window in
      let decided : admits date_of rps daily now log ≡ (
          not (at_limit daily st1.daily_count)
          && not (at_limit rps (reset_window now st1).window_count)) =
        ap (λ c. not (at_limit daily c) && not (at_limit rps (open_count now log))) o.count
        ∙ ap (λ c. not (at_limit daily st1.daily_count) && not (at_limit rps c)) (sym open_now) in
      elim (Bool-cases (at_limit daily st1.daily_count)) [
        | inl a ↦ rw (a, admit) (sym (decided ∙ rw a refl), OfToday-Logged o)
        | inr a ↦ elim (Bool-cases (at_limit rps (reset_window now st1).window_count)) [
          | inl b ↦
              rw (a, b, admit)
                (
                  sym (decided ∙ rw (a, b) refl),
                  subst (λ s. Logged date_of calendar now (some s) log)
                      (sym (reset_window-at_limit rps now st1 b)) (OfToday-Logged o),
                )
          | inr b ↦
              rw (a, b, admit)
                (
                  sym (decided ∙ rw (a, b) refl),
                  OfToday-Logged (count_request-OfToday now st1 log o),
                )
        ]
      ]

  pub admit-removed :
      (rps daily : ℤ) (now : ℕ) (log : List ℕ)
      → Logged date_of calendar now none log
      → Answered rps daily now log (admit rps daily now (date_of now) (new_key now (date_of now)))
  unfolding admit reset_daily reset_window new_key count_request
  admit-removed rps daily now log (removed none_on before closed) =
      let opened = window_of-Closed now log closed in
      let none_open : open_count now log ≡ 0 = open_count-Closed now log closed in
      let none_today = none_on now (omega arith) in
      let admitted : admit rps daily now (date_of now) (new_key now (date_of now)) ≡ (
        record { window_start = now; window_count = 1; daily_date = date_of now; daily_count = 1 },
        true,
      ) =
        rw
          (
            admit,
            reset_daily,
            text_eq_refl (date_of now),
            at_limit-zero daily,
            reset_window,
            fresh_window now,
            at_limit-zero rps,
          )
          refl in
      let decided : admits date_of rps daily now log ≡ true =
        ap (λ c. not (at_limit daily c) && not (at_limit rps (open_count now log))) none_today
        ∙ ap (λ c. not (at_limit daily 0) && not (at_limit rps c)) none_open
        ∙ rw (at_limit-zero daily, at_limit-zero rps) refl in
      subst (Answered rps daily now log) (sym admitted) (
        sym decided,
        stored now (omega arith) refl (omega arith, before)
            (rw (text_eq_refl (date_of now), count_on) (omega (arith, none_today))) opened,
      )
